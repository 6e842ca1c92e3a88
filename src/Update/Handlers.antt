-- ===== src/Update/Handlers.antt =====
-- The handlers of src/update.c for POST to /load, /insert and /delete.
use redstore.Base.{ℕ, Option, none, some, Str, codes}
use redstore.Response.{Response}
use redstore.Platform.{Platform, Stream, log_debug, log_error}
use redstore.Program.{Action, call}
use redstore.Program.Monad.{◌>>=◌}
use redstore.Update.{
  StreamProcessor, argument, message, load_stream_into_graph, delete_stream_from_graph,
  parse_data_from_buffer,
}

abbrev or_default : Str → Option Str → Str
or_default default none = default
or_default default (some s) = s

module _ (S : Platform) where
  open S use {World, Node, Uri, Statement, Parser}

  -- What follows a pointer that the libraries return, or the answer if it is NULL.
  abbrev given :
      {A : Type 0}
      → ℕ
      → Str
      → Option A
      → (A → Action World (Option Response))
      → Action World (Option Response)
  given code failure none next = message S log_error code failure
  given code failure (some a) next = next a

  abbrev load_on_graph : Uri → Stream Statement → Action World (Option Response)
  load_on_graph graph_uri stream = do
    graph ← call (S.new_node_from_uri graph_uri)
    given 500 (codes "librdf_new_node_from_uri failed for graph-uri.") graph
        λ node. load_stream_into_graph S stream (some node)

  abbrev load_parsed : Option Str → Uri → Uri → Uri → Action World (Option Response)
  load_parsed parser_arg uri base_uri graph_uri = do
    made ← call (S.new_parser (or_default (codes "guess") parser_arg))
    given 500 (codes "Failed to create parser") made λ parser.
        call (S.parse_uri parser uri base_uri) >>= λ parsed.
        given 500 (codes "Failed to parse RDF as stream.") parsed (load_on_graph graph_uri)

  -- The three URIs: the last two are the first if they are not given.
  abbrev load_uris : Str → Option Str → Option Str → Option Str → Action World (Option Response)
  load_uris uri_arg base_arg graph_arg parser_arg = do
    uri_made ← call (S.new_uri uri_arg)
    given 400 (codes "librdf_new_uri failed for URI") uri_made λ uri.
        call (S.new_uri (or_default uri_arg base_arg)) >>= λ base_made.
        given 400 (codes "librdf_new_uri failed for Base URI") base_made λ base_uri.
          call (S.new_uri (or_default uri_arg graph_arg)) >>= λ graph_made.
          given 400 (codes "librdf_new_uri failed for Graph URI") graph_made
            λ graph_uri. load_parsed parser_arg uri base_uri graph_uri

  abbrev load_from :
      Option Str → Option Str → Option Str → Option Str → Action World (Option Response)
  load_from none base_arg graph_arg parser_arg =
      message S log_debug 400 (codes "Missing URI to load.")
  load_from (some uri_arg) base_arg graph_arg parser_arg =
      load_uris uri_arg base_arg graph_arg parser_arg

  unfoldable pub handle_load_post : Action World (Option Response)
  handle_load_post = do
    uri_arg ← argument (codes "uri")
    base_arg ← argument (codes "base-uri")
    graph_arg ← argument (codes "graph")
    parser_arg ← argument (codes "parser")
    load_from uri_arg base_arg graph_arg parser_arg

  abbrev parse_into :
      Str → Option Str → StreamProcessor S → Option Node → Action World (Option Response)
  parse_into content content_type stream_proc graph_node =
      parse_data_from_buffer S content (or_default (codes "ntriples") content_type) graph_node
        stream_proc

  -- The graph of the argument, if it is given.
  abbrev parse_argument :
      Str → Option Str → StreamProcessor S → Option Str → Action World (Option Response)
  parse_argument content content_type stream_proc none =
      parse_into content content_type stream_proc none
  parse_argument content content_type stream_proc (some graph_uri_str) = do
    made ← call (S.new_node_from_uri_string graph_uri_str)
    given 500 (codes "Error creating graph node from URI string") made
        λ graph_node. parse_into content content_type stream_proc (some graph_node)

  abbrev parse_content_argument :
      Option Str → Option Str → Option Str → StreamProcessor S → Action World (Option Response)
  parse_content_argument none content_type graph_uri_str stream_proc =
      message S log_debug 400 (codes "Missing the 'content' argument.")
  parse_content_argument (some content) content_type graph_uri_str stream_proc =
      parse_argument content content_type stream_proc graph_uri_str

  unfoldable pub handle_insert_post : Action World (Option Response)
  handle_insert_post = do
    content ← argument (codes "content")
    content_type ← argument (codes "content-type")
    graph_uri_str ← argument (codes "graph")
    parse_content_argument content content_type graph_uri_str (load_stream_into_graph S)

  unfoldable pub handle_delete_post : Action World (Option Response)
  handle_delete_post = do
    content ← argument (codes "content")
    content_type ← argument (codes "content-type")
    graph_uri_str ← argument (codes "graph")
    parse_content_argument content content_type graph_uri_str (delete_stream_from_graph S)
