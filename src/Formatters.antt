-- ===== src/Formatters.antt =====
-- src/formatters.c: streams and results of queries, written to the client in the format that it asks
-- for.
use redstore.Base.{
  ℕ, Option, none, some, List, [], ◌∷◌, if◌then◌else◌, Result, ok, fault, Str, codes,
}
use redstore.Response.{Response, response_new, add_header}
use redstore.Response.Send.{write, response_send}
use redstore.Format.{Description, Negotiated, negotiate_format}
use redstore.Platform.{Platform, Stream, log_info, log_error}
use redstore.Program.{Action, call, lift}
use redstore.Program.Monad.{◌>>=◌, ◌>>◌, pure, the_request, set_request}
use redstore.Pages.{page_new_with_message}

-- `desc->names[0]`
abbrev pub first_name : Description → Option Str
first_name desc = elim desc.names [ [] ↦ none | name ∷ next ↦ some name ]

-- `if (mime_type)`
abbrev pub add_type : Option Str → Response → Result Response
add_type none response = ok response
add_type (some mime_type) response = add_header response (codes "Content-Type") (some mime_type)

module _ (S : Platform) where
  open S use {Statement, Results, Serializer, Formatter}

  -- `redhttp_response_send`, with the response as it is left.
  abbrev pub send : Response → Action S.World Response
  send response request p = elim (response_send response request S.date) [
    | fault broken ↦ fault broken
    | ok (response', request') ↦ ok (response', request', p)
  ]

  -- Bytes that are written to the socket of the request.
  abbrev pub output : List ℕ → Action S.World Unit
  output bytes = do request ← the_request; set_request (write request bytes)

  -- A response with the type that was chosen, whose header is sent.
  abbrev pub send_header : Option Str → Action S.World Response
  send_header mime_type = do
    response ← lift (response_new 200 none)
    typed ← lift (add_type mime_type response)
    send typed

  abbrev write_graph :
      Stream Statement → Option Str → Option Serializer → Action S.World (Option Response)
  write_graph stream mime_type none =
      page_new_with_message S log_error 500 (codes "Failed to create serialiser.")
  write_graph stream mime_type (some serialiser) = do
    response ← send_header mime_type
    bytes ← call (S.serialize serialiser stream)
    output bytes
    pure (some response)

  abbrev graph_in : Stream Statement → Negotiated → Action S.World (Option Response)
  graph_in stream none =
      page_new_with_message S log_info 406
        (codes "Results format not supported for graph query type.")
  graph_in stream (some (desc, mime_type)) =
      call (S.new_serializer (first_name desc)) >>= write_graph stream mime_type

  unfoldable pub format_graph_stream : Stream Statement → Action S.World (Option Response)
  format_graph_stream stream = do
    request ← the_request
    chosen ← lift (negotiate_format S.double request S.serializers (some (codes "rdfxml")))
    graph_in stream chosen

  abbrev write_results : Results → Option Str → Option Formatter → Action S.World (Option Response)
  write_results results mime_type none =
      page_new_with_message S log_error 500 (codes "Failed to create results formatter.")
  write_results results mime_type (some formatter) = do
    iostream ← call S.new_iostream
    if iostream
        then (do
          response ← send_header mime_type
          bytes ← call (S.formatter_write formatter results)
          output bytes
          pure (some response))
        else page_new_with_message S log_error 500
            (codes "Failed to create raptor_iostream for results output.")

  abbrev results_in : Results → Negotiated → Action S.World (Option Response)
  results_in results none =
      page_new_with_message S log_info 406
        (codes "Results format not supported for bindings query type.")
  results_in results (some (desc, mime_type)) =
      call (S.new_formatter results (first_name desc)) >>= write_results results mime_type

  unfoldable pub format_bindings_query_result : Results → Action S.World (Option Response)
  format_bindings_query_result results = do
    request ← the_request
    chosen ← lift (negotiate_format S.double request S.results_formats (some (codes "xml")))
    results_in results chosen
