-- ===== src/Response/Tests.antt =====
-- Runs of src/redhttp/response.c, and the theorems on it for concrete responses.
use redstore.Base.{◌≡◌, refl, true, false, some, [], ◌∷◌, ◌++◌, arith, ok, Str, codes, strn_eq, pos}
use redstore.Request.{Request, request_new}
use redstore.Response.{Response}
use redstore.Response.Page.{HasContent}
use redstore.Response.Send.{write, response_send}
use redstore.Response.Send.General.{general_fields}
use redstore.Response.Send.Wire.{head_text, response_send-wire}

abbrev served : Str → Request
served version = record (request_new (record { input = []; eof = false; output = [] })) {
  version = some version;
  server = some (some (codes "redstore"));
}

abbrev hello : Response
hello = record {
  headers = record { key = codes "Content-Type"; value = some (codes "text/plain") } ∷ [];
  status_code = 200;
  status_message = some (codes "OK");
  content_buffer = some (codes "hello");
  content_length = pos 5;
  content_free_callback = false;
  user_data = 0;
  headers_sent = false;
}

hello-HasContent : HasContent hello (codes "hello")
hello-HasContent = (refl, refl, λ e. cc e)

response_send-wire_example :
    (response' : Response) × (response_send hello (served (codes "1.1")) (some (codes "today"))
      ≡ ok (
        response',
        write (served (codes "1.1")) (
            head_text 200 (codes "OK") (
              (codes "Content-Type", codes "text/plain")
              ∷ general_fields 5 (codes "today") (codes "redstore"))
            ++ codes "hello"),
      ))
    × (response'.headers_sent ≡ true)
unfolding strn_eq
response_send-wire_example =
    response_send-wire hello (served (codes "1.1"))
      ((codes "Content-Type", codes "text/plain") ∷ []) (codes "OK") (codes "hello") (codes "today")
      (codes "redstore") refl refl hello-HasContent refl refl refl (omega arith) (omega arith)
