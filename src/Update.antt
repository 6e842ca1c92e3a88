-- ===== src/Update.antt =====
-- src/update.c: what is read from a client and put into a graph, or taken out of it.
pub mod Handlers
pub mod Parsing
pub mod Failures
mod Tests
use redstore.Base.{
  ℕ, ◌+◌, ◌-◌, Bool, true, false, not, Option, none, some, List, [], ◌∷◌, ◌++◌, ltb, leb, ◌==◌,
  if◌then◌else◌, length, null_pointer, Result, ok, fault, Str, codes, decimal,
}
use redstore.Request.{Request, get_argument, get_header}
use redstore.Request.Read.{atoi, size_of_int}
use redstore.Socket.{Socket, fread}
use redstore.Response.{Response, add_header}
use redstore.Platform.{LogLevel, Platform, Stream, log_debug, log_info, log_error}
use redstore.Program.{Program, Action, call, lift, logged}
use redstore.Program.Monad.{◌>>=◌, ◌>>◌, pure, the_request, the_program, set_request}
use redstore.Pages.{printed_str, page_new_with_message}

abbrev pub argument : {W : Type 0} → Str → Action W (Option Str)
argument key = do request ← the_request; pure (get_argument request key)

-- Are there texts of errors?
abbrev pub has_errors : {W : Type 0} → Action W Bool
has_errors = do p ← the_program; pure (elim p.error_buffer [ none ↦ false | some errors ↦ true ])

-- `fread(buffer, 1, n, socket)`
abbrev pub read_socket : {W : Type 0} → ℕ → Action W (List ℕ)
read_socket n request p = elim (fread n n request.socket) [
  | fault broken ↦ fault broken
  | ok (bytes, socket) ↦ ok (bytes, record request { socket = socket }, p)
]

module _ (S : Platform) where
  open S use {World, Node, Uri, Statement, Parser, node_get_uri, uri_as_string}

  -- redstore_stream_processor
  abbrev pub StreamProcessor : Type 0
  StreamProcessor = Stream Statement → Option Node → Action World (Option Response)

  abbrev pub message : LogLevel → ℕ → Str → Action World (Option Response)
  message = page_new_with_message S

  -- The text of the URI of a graph; a node without one is a null pointer.
  abbrev pub graph_str : Node → Result Str
  graph_str node = elim (node_get_uri node) [
    | none ↦ fault null_pointer
    | some uri ↦ ok (uri_as_string uri)
  ]

  abbrev pub add_location : Str → Option Response → Result (Option Response)
  add_location location none = fault null_pointer
  add_location location (some response) =
      elim (add_header response (codes "Location") (some location)) [
        | fault broken ↦ fault broken
        | ok response' ↦ ok (some response')
      ]

  unfoldable pub load_stream_into_new_graph :
      Stream Statement → Node → Action World (Option Response)
  load_stream_into_new_graph stream graph_node = do
    graph ← lift (graph_str graph_node)
    failed ← call (S.context_add_statements (some graph_node) stream)
    if failed then message log_error 500 (codes "Failed to add triples to graph.") else do
      errors ← has_errors
      if errors
          then message log_info 500 (codes "Error while adding triples to new graph: " ++ graph)
          else do
            response ←
                message log_info 201 (codes "Successfully added triples to new graph: " ++ graph)
            lift (add_location graph response)

  -- The name of a graph in a message.
  abbrev pub graph_name : Option Node → Option Str
  graph_name none = some (codes "the default graph.")
  graph_name (some graph) = elim (node_get_uri graph) [
    | none ↦ none
    | some uri ↦ some (uri_as_string uri)
  ]

  unfoldable pub load_stream_into_graph : StreamProcessor
  load_stream_into_graph stream graph = do
    failed ← call (S.context_add_statements graph stream)
    if failed then message log_error 500 (codes "Failed to add triples to graph.") else do
      errors ← has_errors
      if errors
          then message log_info 500
              (codes "Error while adding triples to: " ++ printed_str (graph_name graph))
          else message log_info 200
              (codes "Successfully added triples to: " ++ printed_str (graph_name graph))

  -- The result of the removal is not looked at.
  abbrev pub clear_graph : Option Node → Action World Unit
  clear_graph none = pure tt
  clear_graph (some graph) = do failed ← call (S.context_remove_statements graph); pure tt

  unfoldable pub clear_and_load_stream_into_graph : StreamProcessor
  unfolding load_stream_into_graph
  clear_and_load_stream_into_graph stream graph = do
    clear_graph graph
    load_stream_into_graph stream graph

  -- One statement of the stream. That there is none is not tested for.
  abbrev delete_statement : Option Node → Option Statement → ℕ → Action World ℕ
  delete_statement graph none count = lift (fault null_pointer)
  delete_statement graph (some statement) count = do
    failed ← call (S.context_remove_statement graph statement)
    pure (if failed then count else count + 1)

  unfoldable pub delete_loop : Option Node → Stream Statement → ℕ → Action World ℕ
  delete_loop graph [] count = pure count
  delete_loop graph ((statement, messages) ∷ next) count = do
    count' ← delete_statement graph statement count
    logged messages
    delete_loop graph next count'

  unfoldable pub delete_stream_from_graph : StreamProcessor
  unfolding delete_loop
  delete_stream_from_graph stream graph = do
    count ← delete_loop graph stream 0
    errors ← has_errors
    if errors
        then message log_info 500 (codes "Error while deleting triples.")
        else if ltb 0 count
        then message log_info 200
            (codes "Successfully deleted " ++ (decimal count ++ codes " triples."))
        else message log_info 200 (codes "No triples deleted.")

  -- The base URI: what is given, or the graph's, or none; and the answer if it cannot be made.
  abbrev Base : Type 0
  Base = Option (Option Uri)

  abbrev found_base : Option Uri → Base
  found_base none = none
  found_base (some uri) = some (some uri)

  abbrev pub base_of_graph : Option Node → Action World Base
  base_of_graph none = pure (some none)
  base_of_graph (some graph_node) = elim (node_get_uri graph_node) [
    | none ↦ lift (fault null_pointer)
    | some graph_uri ↦ call (S.new_uri_from_uri graph_uri) >>= λ uri. pure (found_base uri)
  ]

  abbrev pub find_base : Option Str → Option Node → Action World Base
  find_base (some base_uri_str) graph_node =
      call (S.new_uri base_uri_str) >>= λ uri. pure (found_base uri)
  find_base none graph_node = base_of_graph graph_node

  abbrev base_failure : Option Str → Str
  base_failure none = codes "Failed to create base URI from graph URI."
  base_failure (some base_uri_str) = codes "Failed to create base URI."

  abbrev process_stream :
      Option Node → StreamProcessor → Option (Stream Statement) → Action World (Option Response)
  process_stream graph_node stream_proc none = message log_info 500 (codes "Failed to parse data.")
  process_stream graph_node stream_proc (some stream) = stream_proc stream graph_node

  abbrev parse_with :
      List ℕ
      → Option Node
      → StreamProcessor
      → Option Uri
      → Option Parser
      → Action World (Option Response)
  parse_with buffer graph_node stream_proc base_uri none =
      message log_info 500 (codes "Failed to create parser.")
  parse_with buffer graph_node stream_proc base_uri (some parser) =
      call (S.parse_string parser buffer base_uri) >>= process_stream graph_node stream_proc

  abbrev parse_on_base :
      List ℕ
      → Str
      → Option Node
      → StreamProcessor
      → Option Str
      → Base
      → Action World (Option Response)
  parse_on_base buffer parser_name graph_node stream_proc base_uri_str none =
      message log_info 500 (base_failure base_uri_str)
  parse_on_base buffer parser_name graph_node stream_proc base_uri_str (some base_uri) =
      call (S.new_parser parser_name) >>= parse_with buffer graph_node stream_proc base_uri

  unfoldable pub parse_data_from_buffer :
      List ℕ → Str → Option Node → StreamProcessor → Action World (Option Response)
  parse_data_from_buffer buffer parser_name graph_node stream_proc = do
    base_uri_str ← argument (codes "base-uri")
    base ← find_base base_uri_str graph_node
    parse_on_base buffer parser_name graph_node stream_proc base_uri_str base

  abbrev pub parse_guessed :
      List ℕ → Option Node → StreamProcessor → Option Str → Action World (Option Response)
  parse_guessed buffer graph_node stream_proc none =
      message log_info 500 (codes "Failed to guess parser type.")
  parse_guessed buffer graph_node stream_proc (some parser_name) =
      parse_data_from_buffer buffer parser_name graph_node stream_proc

  -- The content, when its length is known.
  abbrev parse_content :
      Option Str → Option Node → StreamProcessor → ℕ → Action World (Option Response)
  parse_content content_type graph_node stream_proc content_length =
      if not (S.can_allocate content_length)
      then message log_error 500 (codes "Failed to allocate memory for input data.")
      else do
        buffer ← read_socket content_length
        if not (length buffer == content_length)
            then message log_error 500 (codes "Error reading content from client.")
            else (call (S.parser_guess_name content_type buffer)
                >>= parse_guessed buffer graph_node stream_proc)

  -- `content_length <= 0`, of a number without a sign
  abbrev parse_sized :
      Option Str → Option Str → Option Node → StreamProcessor → Action World (Option Response)
  parse_sized none content_type graph_node stream_proc =
      message log_debug 400 (codes "Missing content length header.")
  parse_sized (some content_length_str) content_type graph_node stream_proc =
      let content_length = size_of_int (atoi content_length_str) in
      if leb content_length 0
      then message log_debug 400 (codes "Invalid content length header.")
      else parse_content content_type graph_node stream_proc content_length

  unfoldable pub parse_data_from_request_body :
      Option Node → StreamProcessor → Action World (Option Response)
  parse_data_from_request_body graph_node stream_proc = do
    request ← the_request
    parse_sized (get_header request (codes "Content-Length"))
        (get_header request (codes "Content-Type")) graph_node stream_proc
