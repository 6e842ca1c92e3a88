-- ===== src/Response/Send/Streamed.antt =====
-- The head of a response whose content is written behind it (src/redhttp/response.c).
use redstore.Base.{
  ℕ, ◌<◌, ◌≡◌, refl, ap, true, false, none, some, [], ◌∷◌, ◌++◌, append-nil, arith, length, ok, Str,
  codes, negsuc,
}
use redstore.Headers.Fields.{Fields, as_headers}
use redstore.Request.{Request}
use redstore.Response.{Response, add_time_header}
use redstore.Response.Send.{
  write, has_headers, add_content_length, add_server, add_general_headers, response_send,
}
use redstore.Response.Send.General.{
  with_fields, add_header-as_headers, add_header-with_fields, append-three,
}
use redstore.Response.Send.Wire.{head_text, header_text-with_fields, send_headers_lem, write-write}

-- The fields that a response of no known length gets when it is sent.
abbrev pub unsized_fields : Str → Str → Fields
unsized_fields date signature =
    (codes "Date", date) ∷ (codes "Connection", codes "Close") ∷ (codes "Server", signature) ∷ []

add_general_headers-unsized :
    (response : Response) (fields : Fields) (n : ℕ) (date signature : Str)
    → response.headers ≡ as_headers fields
    → response.content_length ≡ negsuc n
    → 0 < length date
    → 0 < length signature
    → add_general_headers response (some (some signature)) (some date)
      ≡ ok (with_fields response (fields ++ unsized_fields date signature))
unfolding add_general_headers add_content_length add_server add_time_header
add_general_headers-unsized response fields n date signature h k d s =
    let f1 = fields ++ (codes "Date", date) ∷ [] in
    let f2 = f1 ++ (codes "Connection", codes "Close") ∷ [] in
    let e1 = add_header-as_headers response fields (codes "Date") date h (omega arith) d in
    let e2 =
      add_header-with_fields response f1 (codes "Connection") (codes "Close") (omega arith)
        (omega arith) in
    let e3 = add_header-with_fields response f2 (codes "Server") signature (omega arith) s in
    let s1 : add_content_length response response.content_length ≡ ok response =
      ap (add_content_length response) k in
    rw s1 (rw (e1, add_time_header) (rw e2 (rw (e3, add_server) (rw append-three))))

-- A response of no known length and without content puts its head on the connection.
pub response_send-head :
    (response : Response) (request : Request) (fields : Fields) (n : ℕ)
    (message date signature : Str)
    → response.headers ≡ as_headers fields
    → response.status_message ≡ some message
    → response.content_length ≡ negsuc n
    → response.content_buffer ≡ none
    → response.headers_sent ≡ false
    → has_headers request.version ≡ true
    → request.server ≡ some (some signature)
    → 0 < length date
    → 0 < length signature
    → response_send response request (some date)
      ≡ ok (
        record (with_fields response (fields ++ unsized_fields date signature)) {
          headers_sent = true;
        },
        write request
            (head_text response.status_code message (fields ++ unsized_fields date signature)),
      )
unfolding response_send
response_send-head response request fields n message date signature h m l c unsent takes server d
      s =
    let all = fields ++ unsized_fields date signature in
    let e1 : add_general_headers response request.server (some date)
        ≡ ok (with_fields response all) =
      rw server (add_general_headers-unsized response fields n date signature h l d s) in
    let text = head_text response.status_code message all in
    rw
      (send_headers_lem response (with_fields response all) request text (some date) unsent takes e1
        (header_text-with_fields response all message m))
      (rw c (rw (write-write request text []) (rw (append-nil text) refl)))
