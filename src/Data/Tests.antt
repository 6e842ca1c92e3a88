-- ===== src/Data/Tests.antt =====
-- The theorems on src/data.c for concrete requests and a storage that is a list.
use redstore.Base.{
  ℕ, ◌≡◌, refl, ◌≢◌, ◌↔◌, true, false, none, some, List, [], ◌∷◌, ◌++◌, arith, ok, Str, codes,
  str_eq, isspace, tolower, skip_while, read_digits,
}
use redstore.Headers.{Headers, headers_get, headers_exists}
use redstore.Format.{negotiate_string}
use redstore.Request.{Request, request_new}
use redstore.Request.Setters.{get_url}
use redstore.Request.Read.{atoi, int_of_word}
use redstore.Platform.Example.{Quads, quads, quads_store, quads_exist, quads_cleared}
use redstore.Program.{Program, log_all}
use redstore.Pages.{message_format}
use redstore.Update.Parsing.{CleanBody, without_content}
use redstore.Data.{get_graph_node}
use redstore.Data.Handlers.{
  handle_data_head, handle_data_get, handle_data_post, handle_data_put, handle_data_delete,
}
use redstore.Data.Targets.{Outcome, message_outcome}
use redstore.Data.Removal.{handle_data_delete-removes, handle_data_delete-then_missing}
use redstore.Data.Repeat.{replaced_world, handle_data_put-idempotent}
use redstore.Data.NewGraph.{MakesNodes}
use redstore.Data.Created.{IsName, AsksNew, created, handle_data_post-creates}
use redstore.Data.Store.{Extended}
use redstore.Data.Contents.{NamesGraph, handle_data_post-extends}

abbrev program_with : Quads → Program Quads
program_with world = record {
  world = world;
  error_buffer = none;
  request_count = 1;
  query_count = 0;
  import_count = 0;
  base_id = 5;
  quiet = false;
  verbose = false;
  running = true;
  exit_code = 0;
}

-- A request with some arguments and a content of two bytes; its URL is known.
abbrev asking : Headers → Request
asking arguments = record (request_new (record { input = codes "xy"; eof = false; output = [] })) {
  url = some (codes "http://h/data/");
  arguments = arguments;
  headers = record { key = codes "Content-Length"; value = some (codes "2") } ∷ [];
}

abbrev graph_argument : Headers
graph_argument = record { key = codes "graph"; value = some (codes "g") } ∷ []

abbrev default_argument : Headers
default_argument = record { key = codes "default"; value = none } ∷ []

abbrev plain_text : Str
plain_text = codes "text/plain"

abbrev says : ℕ → Str → Request → Program Quads → Outcome quads
says = message_outcome quads plain_text

asking-speaks :
    (arguments : Headers)
    → headers_get arguments (codes "format") ≡ none
    → message_format quads (asking arguments) ≡ ok (some plain_text)
unfolding negotiate_string headers_get tolower
asking-speaks arguments h = rw h refl

-- The graph "g" is named, and the content is parsed to two statements.
abbrev named : Request
named = asking graph_argument

named-NamesGraph :
    (world : Quads)
    → NamesGraph quads quads_store named named (program_with world) (codes "g") plain_text
unfolding headers_get headers_exists get_graph_node get_url log_all tolower
named-NamesGraph world = record {
  not_default = refl;
  some_name = refl;
  node_found = refl;
  speaks = asking-speaks graph_argument refl;
  printable = λ e. cc e;
}

abbrev two_statements : List Str
two_statements = codes "x" ∷ codes "y" ∷ []

named-CleanBody : (world : Quads) → CleanBody quads named world (codes "g") 2 two_statements
unfolding headers_get atoi int_of_word tolower isspace skip_while read_digits
named-CleanBody world = record {
  size_text = codes "2";
  parser_name = codes "bytes";
  graph_uri = codes "g";
  base_uri = codes "g";
  parser = codes "bytes";
  has_length = refl;
  size_read = refl;
  some_content = omega arith;
  allocated = refl;
  is_complete = refl;
  guessed = refl;
  no_base = refl;
  named = refl;
  copied = refl;
  parser_made = refl;
  parsed = refl;
}

abbrev old : Quads
old = (codes "g", codes "a") ∷ (codes "k", codes "b") ∷ []

abbrev rest : Request
rest = without_content quads 2 named

abbrev loaded_text : Str
loaded_text = codes "Successfully added triples to: ug"

handle_data_post-extends_example :
    (w : Quads) × (handle_data_post quads named (program_with old)
      ≡ says 200 loaded_text rest (program_with w))
    × ((m s : Str)
        → quads_store.Holds w m s ↔ Extended quads quads_store (codes "g") two_statements old m s)
handle_data_post-extends_example =
    handle_data_post-extends quads quads_store named named (program_with old) (codes "g") plain_text
      (named-NamesGraph old) 2 two_statements (named-CleanBody old) refl

abbrev not_found : Request → Program Quads → Outcome quads
not_found request p = says 404 (codes "Graph not found.") request p

handle_data_delete-removes_example :
    (w : Quads) × (handle_data_delete quads named (program_with old)
      ≡ says 200 (codes "Successfully deleted graph.") named (program_with w))
    × ((m s : Str) → quads_store.Holds w m s ↔ (quads_store.Holds old m s × (m ≢ codes "g")))
    × (quads_exist w (codes "g") ≡ false)
unfolding quads_exist str_eq
handle_data_delete-removes_example =
    handle_data_delete-removes quads quads_store named named (program_with old) (codes "g")
      plain_text (named-NamesGraph old) refl

abbrev left : Program Quads
left = program_with (quads_cleared (codes "g") old)

handle_data_delete-then_missing_example :
    (handle_data_delete quads named (program_with old)
      ≡ says 200 (codes "Successfully deleted graph.") named left)
    × (handle_data_head quads named left ≡ not_found named left)
    × (handle_data_get quads named left ≡ not_found named left)
    × (handle_data_delete quads named left ≡ not_found named left)
unfolding quads_exist str_eq
handle_data_delete-then_missing_example =
    handle_data_delete-then_missing quads quads_store named named (program_with old) (codes "g")
      plain_text named named plain_text (named-NamesGraph old) refl
      (named-NamesGraph (quads_cleared (codes "g") old))

abbrev replaced : Quads
replaced = replaced_world quads quads_store (program_with old) (codes "g") two_statements

handle_data_put-idempotent_example :
    (handle_data_put quads named (program_with old)
      ≡ says 200 loaded_text rest (program_with replaced))
    × ((v : Quads) × (handle_data_put quads named (program_with replaced)
          ≡ says 200 loaded_text rest (program_with v))
        × ((m s : Str) → quads_store.Holds v m s ↔ quads_store.Holds replaced m s))
handle_data_put-idempotent_example =
    handle_data_put-idempotent quads quads_store named named named named (program_with old)
      (codes "g") plain_text plain_text 2 2 two_statements (named-NamesGraph old)
      (named-CleanBody old) refl (named-NamesGraph replaced) (named-CleanBody replaced)

-- A request for a new graph.
abbrev anonymous : Request
anonymous = asking []

abbrev id_nodes : MakesNodes quads quads_store (codes "http://h/data/")
id_nodes = record {
  base_uri = codes "http://h/data/";
  uri_of = λ id. codes "/data/" ++ id;
  node_of = λ id. codes "/data/" ++ id;
  base_made = λ w. refl;
  uri_made = λ id w. refl;
  node_made = λ id w. refl;
}

anonymous-AsksNew :
    AsksNew quads quads_store anonymous
      (program_with old)
      (codes "http://h/data/")
      plain_text
      id_nodes
      2
      two_statements
unfolding headers_get headers_exists atoi int_of_word tolower isspace skip_while read_digits
anonymous-AsksNew = record {
  no_graph = refl;
  no_default = refl;
  no_path = refl;
  url_known = refl;
  speaks = asking-speaks [] refl;
  no_errors = refl;
  body = λ node. record {
    size_text = codes "2";
    parser_name = codes "bytes";
    graph_uri = node;
    base_uri = node;
    parser = codes "bytes";
    has_length = refl;
    size_read = refl;
    some_content = omega arith;
    allocated = refl;
    is_complete = refl;
    guessed = refl;
    no_base = refl;
    named = refl;
    copied = refl;
    parser_made = refl;
    parsed = refl;
  };
}

handle_data_post-creates_example :
    (node : Str) × (graph : Str) × (base_id : ℕ) × (w : Quads) × (quads_exist old node ≡ false)
    × IsName quads quads_store node graph
    × (handle_data_post quads anonymous (program_with old)
        ≡ created quads quads_store plain_text graph
            (without_content quads 2 anonymous)
            (record (program_with old) { base_id = base_id; world = w }))
    × ((n s : Str)
        → quads_store.Holds w n s ↔ Extended quads quads_store node two_statements old n s)
unfolding quads_exist str_eq
handle_data_post-creates_example =
    handle_data_post-creates quads quads_store anonymous (program_with old) (codes "http://h/data/")
      plain_text id_nodes 2 two_statements anonymous-AsksNew 0 (omega arith) refl
      (λ node. (node, b'u', node, refl, refl))
