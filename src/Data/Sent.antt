-- ===== src/Data/Sent.antt =====
-- GET of a graph (src/data.c), and the way of its statements to the client (src/formatters.c).
mod Tests
use redstore.Base.{
  ◌+◌, ◌-◌, ◌<◌, ◌≡◌, refl, ap, ◌∙◌, true, false, none, some, [], ◌∷◌, ◌++◌, arith, length, Result,
  ok, Str, codes, negsuc,
}
use redstore.Headers.{headers_add}
use redstore.Headers.Fields.{Fields, as_headers}
use redstore.Request.{Request}
use redstore.Response.{Response, response_new, add_header}
use redstore.Response.Send.{write, has_headers, response_send}
use redstore.Response.Send.Wire.{head_text, write-write}
use redstore.Response.Send.Streamed.{unsized_fields, response_send-head}
use redstore.Response.Page.{ok_response, response_new-ok}
use redstore.Response.Send.General.{add_header-as_headers}
use redstore.Format.{Description, negotiate_format}
use redstore.Platform.{Platform, Stream}
use redstore.Program.{Program, Action, log_all, call, lift}
use redstore.Program.Monad.{◌>>=◌, ◌>>◌, pure}
use redstore.Program.Calls.{quiet}
use redstore.Program.Steps.{>>=-step, call-step}
use redstore.Formatters.{first_name, add_type, send, send_header, format_graph_stream}
use redstore.Data.Handlers.{get_node, handle_data_get}
use redstore.Data.Store.{IsStore}
use redstore.Data.Contents.{NamesGraph, get-named}

module _ (S : Platform) where
  open S use {World, Node, Statement, Serializer}

  -- The client takes headers and a format of graphs, which the libraries write without a message.
  pub record Serialises (request : Request) (p : Program World) (stream : Stream Statement)
      (mime_type bytes date signature : Str) : Type 0 where
    pub desc : Description
    pub serialiser : Serializer
    pub negotiated :
        negotiate_format S.double request S.serializers (some (codes "rdfxml"))
        ≡ ok (some (desc, some mime_type))
    pub some_type : 0 < length mime_type
    pub serialiser_made :
        S.new_serializer (first_name desc) p.world ≡ quiet (some serialiser) p.world
    pub serialised : S.serialize serialiser stream p.world ≡ quiet bytes p.world
    pub takes_headers : has_headers request.version ≡ true
    pub dated : S.date ≡ some date
    pub some_date : 0 < length date
    pub signed : request.server ≡ some (some signature)
    pub some_signature : 0 < length signature

  module _ (request : Request) (p : Program World) (stream : Stream Statement)
      (mime_type bytes date signature : Str)
      (h : Serialises request p stream mime_type bytes date signature) where
    abbrev sent_fields : Fields
    sent_fields = (codes "Content-Type", mime_type) ∷ unsized_fields date signature

    -- The response that stands for what has been written.
    abbrev pub sent_response : Response
    sent_response = record {
      headers = as_headers sent_fields;
      status_code = 200;
      status_message = some (codes "OK");
      content_buffer = none;
      content_length = negsuc 0;
      content_free_callback = false;
      user_data = 0;
      headers_sent = true;
    }

    abbrev pub head : Str
    head = head_text 200 (codes "OK") sent_fields

    abbrev type_fields : Fields
    type_fields = (codes "Content-Type", mime_type) ∷ []

    abbrev typed_response : Response
    typed_response = record ok_response { headers = as_headers type_fields }

    typed : add_type (some mime_type) ok_response ≡ ok typed_response
    typed =
        add_header-as_headers ok_response [] (codes "Content-Type") mime_type refl (omega arith)
          h.some_type

    abbrev lifted : Result Response → Result (Response × Request × Program World)
    lifted made = lift made request p

    sent : response_send typed_response request S.date ≡ ok (sent_response, write request head)
    sent =
        ap (response_send typed_response request) h.dated
        ∙ response_send-head typed_response request type_fields 0 (codes "OK") date signature refl
            refl refl refl refl h.takes_headers h.signed h.some_date h.some_signature

    send_header-writes :
        send_header S (some mime_type) request p ≡ ok (sent_response, write request head, p)
    send_header-writes =
        >>=-step (lift (response_new 200 none)) _ (ap lifted response_new-ok)
        ∙ >>=-step (lift (add_type (some mime_type) ok_response)) (send S) (ap lifted typed)
        ∙ rw (sent, send) refl

    format_graph_stream-writes :
        format_graph_stream S stream request p
        ≡ ok (some sent_response, write request (head ++ bytes), p)
    unfolding format_graph_stream log_all
    format_graph_stream-writes = rw h.negotiated (
        call-step (S.new_serializer (first_name h.desc)) _ request p h.serialiser_made
        ∙ >>=-step (send_header S (some mime_type)) _ send_header-writes
        ∙ call-step (S.serialize h.serialiser stream) _ (write request head) p h.serialised
        ∙ ap (λ r. ok (some sent_response, r, p)) (write-write request head bytes))

  -- GET of a graph that exists.
  module _ (store : IsStore S) (request request' : Request) (p : Program World) (node : Node)
      (format_str : Str) (names : NamesGraph S store request request' p node format_str)
      (stream : Stream Statement) (mime_type bytes date signature : Str) where
    open store use {exists}

    -- GET of a named graph that exists, by a client that takes headers and a format of graphs: the
    -- head of a response is written, with 200 and the type of the format, and behind it what the
    -- libraries write of the statements of the graph; the response is marked as sent, and nothing
    -- is changed. The libraries log no message, and the store keeps its laws.
    pub handle_data_get-sends :
        exists p.world node ≡ true
        → S.context_as_stream node p.world ≡ quiet (some stream) p.world
        → (h : Serialises request' p stream mime_type bytes date signature)
        → handle_data_get S request p
          ≡ ok (
            some (sent_response request' p stream mime_type bytes date signature h),
            write request' (head request' p stream mime_type bytes date signature h ++ bytes),
            p,
          )
    unfolding log_all
    handle_data_get-sends there streamed h =
        get-named S store request request' p node format_str names
        ∙ rw (store.contains_answer node p.world) (
            rw there (
              rw streamed
                (format_graph_stream-writes request' p stream mime_type bytes date signature h)))
