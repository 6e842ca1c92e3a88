-- ===== src/Main/Tests.antt =====
-- The theorems on the routes of src/redstore.c for concrete requests.
use redstore.Base.{
  ◌<◌, ◌≡◌, refl, ◌↔◌, true, false, Option, none, some, List, [], ◌∷◌, ◌++◌, arith, ok, Str, codes,
  str_eq, str_ne, strn_eq, isspace, tolower, skip_while, read_digits,
}
use redstore.Headers.{headers_get, headers_exists}
use redstore.Format.{negotiate_string, is_html_format}
use redstore.Request.{Request, request_new}
use redstore.Request.Setters.{get_url}
use redstore.Request.Read.{atoi, int_of_word}
use redstore.Response.{Response}
use redstore.Response.Page.{IsFresh, html_type}
use redstore.Server.{glob_stem, match_route, method_matches, path_matches}
use redstore.Server.Dispatch.{dispatch_request}
use redstore.Platform.Example.{Quads, quads, quads_store, quads_exist, answering}
use redstore.Program.{Program, Action, redstore_log, log_all}
use redstore.Program.Monad.{pure}
use redstore.Pages.{message_format}
use redstore.Pages.Message.{message_response}
use redstore.Update.Parsing.{CleanBody, without_content}
use redstore.Data.{get_graph_node}
use redstore.Data.Store.{Replaced}
use redstore.Data.Contents.{NamesGraph, with_world}
use redstore.Data.Handlers.{handle_data_get}
use redstore.Data.Removal.{handle_data-missing_graph}
use redstore.Main.Options.{initial_settings}
use redstore.Main.Start.{initial_program, start}
use redstore.Main.Stopping.{start-fails}
use redstore.Main.Routes.{Unmatched-of_map, table, named, begun, NoneMatches}
use redstore.Main.Unsupported.{dispatch_request-unsupported, dispatch_request-trailing_slash}
use redstore.Main.DataRoutes.{get, globbed, dispatch_request-data}
use redstore.Main.Whole.{dispatch_request-replaces}

abbrev no_description : Action Quads (Option Response)
no_description = pure none

-- The program after an error has been logged.
abbrev busy : Quads → Program Quads
busy world = record {
  world = world;
  error_buffer = some (codes "old");
  request_count = 3;
  query_count = 0;
  import_count = 0;
  base_id = 5;
  quiet = false;
  verbose = false;
  running = true;
  exit_code = 0;
}

abbrev asked : Str → Str → Request
asked method path = record (request_new (record { input = codes "xy"; eof = false; output = [] })) {
  method = some method;
  path = some path;
  url = some (codes "http://h/data/g");
  headers = record { key = codes "Content-Length"; value = some (codes "2") } ∷ [];
}

abbrev put_request : Request
put_request = asked (codes "PUT") (codes "/data/g")

abbrev put_globbed : Request
put_globbed = globbed put_request (codes "/g")

abbrev plain_text : Str
plain_text = codes "text/plain"

asked-speaks : (method path : Str) → message_format quads (asked method path) ≡ ok (some plain_text)
unfolding negotiate_string headers_get tolower
asked-speaks method path = refl

abbrev graph_name : Str
graph_name = codes "http://h/data/g"

put_globbed-NamesGraph :
    (world : Quads)
    → NamesGraph quads quads_store put_globbed put_globbed
        (begun quads no_description (busy world))
        graph_name
        plain_text
unfolding headers_get headers_exists get_graph_node get_url log_all tolower negotiate_string
put_globbed-NamesGraph world = record {
  not_default = refl;
  some_name = refl;
  node_found = refl;
  speaks = refl;
  printable = λ e. cc e;
}

abbrev two_statements : List Str
two_statements = codes "x" ∷ codes "y" ∷ []

put_globbed-CleanBody :
    (world : Quads) → CleanBody quads put_globbed world graph_name 2 two_statements
unfolding headers_get atoi int_of_word tolower isspace skip_while read_digits
put_globbed-CleanBody world = record {
  size_text = codes "2";
  parser_name = codes "bytes";
  graph_uri = graph_name;
  base_uri = graph_name;
  parser = codes "bytes";
  has_length = refl;
  size_read = refl;
  some_content = omega arith;
  allocated = refl;
  is_complete = refl;
  guessed = refl;
  no_base = refl;
  named = refl;
  copied = refl;
  parser_made = refl;
  parsed = refl;
}

abbrev old : Quads
old = (graph_name, codes "a") ∷ (codes "k", codes "b") ∷ []

dispatch_request-replaces_example :
    (w : Quads) × (dispatch_request (table quads no_description) put_request (busy old)
      ≡ ok (
        message_response quads false 200
            (codes "Successfully added triples to: uhttp://h/data/g")
            none,
        without_content quads 2 put_globbed,
        with_world quads quads_store (begun quads no_description (busy old)) w,
      ))
    × ((m s : Str)
        → quads_store.Holds w m s ↔ Replaced quads quads_store graph_name two_statements old m s)
unfolding is_html_format str_eq
dispatch_request-replaces_example =
    dispatch_request-replaces quads quads_store no_description put_request put_globbed (busy old)
      (codes "/g") graph_name plain_text 2 two_statements refl refl refl
      (put_globbed-NamesGraph old) (put_globbed-CleanBody old)

-- A graph that does not exist, asked for by GET.
abbrev get_request : Request
get_request = asked (codes "GET") (codes "/data/g")

abbrev after_first : Quads → Program Quads
after_first world = begun quads no_description (busy world)

get-NamesGraph :
    NamesGraph quads quads_store
      (globbed get_request (codes "/g"))
      (globbed get_request (codes "/g"))
      (after_first [])
      graph_name
      plain_text
unfolding headers_get headers_exists get_graph_node get_url log_all tolower negotiate_string
get-NamesGraph = record {
  not_default = refl;
  some_name = refl;
  node_found = refl;
  speaks = refl;
  printable = λ e. cc e;
}

abbrev missing_page : Response
missing_page = message_response quads false 404 (codes "Graph not found.") none

get_missing :
    handle_data_get quads (globbed get_request (codes "/g")) (after_first [])
    ≡ ok (some missing_page, globbed get_request (codes "/g"), after_first [])
unfolding quads_exist is_html_format str_eq
get_missing =
    (handle_data-missing_graph quads quads_store (globbed get_request (codes "/g"))
      (globbed get_request (codes "/g")) (after_first []) graph_name plain_text get-NamesGraph
      refl).1

dispatch_request-data_example :
    dispatch_request (table quads no_description) get_request (busy [])
    ≡ ok (missing_page, globbed get_request (codes "/g"), after_first [])
dispatch_request-data_example =
    dispatch_request-data quads no_description get_request (codes "/g") refl get (busy [])
      missing_page (globbed get_request (codes "/g")) (after_first []) refl refl get_missing

abbrev unknown : Request
unknown = asked (codes "PUT") (codes "/nowhere")

unknown-NoneMatches : NoneMatches quads no_description unknown
unfolding match_route method_matches path_matches glob_stem str_eq strn_eq
unknown-NoneMatches = Unmatched-of_map (named quads no_description) unknown refl

abbrev slashed : Request
slashed = asked (codes "GET") (codes "/nowhere/")

slashed-NoneMatches : NoneMatches quads no_description slashed
unfolding match_route method_matches path_matches glob_stem str_eq strn_eq
slashed-NoneMatches = Unmatched-of_map (named quads no_description) slashed refl

abbrev unsupported_page : Response
unsupported_page = message_response quads false 404 (codes "Unsupported path.") none

dispatch_request-unsupported_example :
    dispatch_request (table quads no_description) unknown (busy [])
    ≡ ok (unsupported_page, unknown, after_first [])
unfolding is_html_format str_eq
dispatch_request-unsupported_example =
    dispatch_request-unsupported quads no_description unknown (busy []) (codes "PUT")
      (codes "/nowhere") plain_text refl refl (asked-speaks (codes "PUT") (codes "/nowhere"))
      (str_ne (codes "/nowhere") (codes "*") refl) unknown-NoneMatches refl

dispatch_request-trailing_slash_example :
    (r : Response) × (dispatch_request (table quads no_description) slashed (busy [])
      ≡ ok (r, slashed, after_first []))
    × IsFresh r 301
        (html_type ++ record { key = codes "Location"; value = some (codes "/nowhere") } ∷ [])
dispatch_request-trailing_slash_example =
    dispatch_request-trailing_slash quads no_description slashed (busy []) plain_text b'/'
      (codes "nowhere") refl refl (asked-speaks (codes "GET") (codes "/nowhere/"))
      slashed-NoneMatches

-- A start whose second step fails.
abbrev starting : Program Quads
starting = initial_program [] initial_settings

abbrev failed_start : Program Quads
failed_start = record starting { running = false; exit_code = 1 }

failed_start_lem :
    start (answering true ∷ answering false ∷ answering true ∷ []) starting
    ≡ ok (false, failed_start)
unfolding start log_all redstore_log
failed_start_lem = refl

start-fails_example : (failed_start.running ≡ false) × (0 < failed_start.exit_code)
start-fails_example =
    start-fails (answering true ∷ answering false ∷ answering true ∷ []) starting failed_start
      failed_start_lem
