-- ===== src/Response/Send/Wire.antt =====
-- What a response puts on the connection (src/redhttp/response.c).
use redstore.Base.{
  ℕ, ◌<◌, ◌≡◌, refl, ap, ◌∙◌, ◌≢◌, ◌⊎◌, inl, inr, true, false, Option, some, List, [], ◌∷◌, ◌++◌,
  append_assoc, arith, Bool-cases, if_false, if_true, length, take, ok, Str, codes, ℤ, pos, decimal,
}
use redstore.Headers.Fields.{Fields, as_headers, field_lines, headers_print-as_headers}
use redstore.Request.{Request, not_null}
use redstore.Response.{Response}
use redstore.Response.Page.{HasContent}
use redstore.Response.Send.General.{with_fields, general_fields, add_general_headers_lem}
use redstore.Response.Send.{
  write, add_general_headers, header_text, has_headers, write_headers, send_headers,
  content_to_write, response_send,
}

-- The status line and the fields, up to the empty line.
abbrev pub head_text : ℕ → Str → Fields → Str
head_text code message fields =
    codes "HTTP/1.0 "
    ++ (decimal code
        ++ b' ' ∷ (message ++ b'\r' ∷ b'\n' ∷ (field_lines fields ++ b'\r' ∷ b'\n' ∷ [])))

pub header_text-with_fields :
    (response : Response) (fields : Fields) (message : Str)
    → response.status_message ≡ some message
    → header_text (with_fields response fields) ≡ ok (head_text response.status_code message fields)
unfolding header_text
header_text-with_fields response fields message h =
    rw (ap not_null h) (rw (headers_print-as_headers fields))

take-length : (s : Str) → take (length s) s ≡ s
take-length [] = refl
take-length (c ∷ s) = rw (take-length s)

content_to_write_lem :
    (content : Str) (buffer : Option Str) (n : ℤ)
    → buffer ≡ some content
    → n ≡ pos (length content)
    → content ≢ []
    → content_to_write buffer n ≡ ok content
content_to_write_lem [] buffer n h k l = absurd (l refl)
content_to_write_lem (c ∷ content) buffer n h k l =
    rw h (rw k (ground (arith, take-length (c ∷ content))))

pub write-write :
    (request : Request) (a b : List ℕ) → write (write request a) b ≡ write request (a ++ b)
unfolding write
write-write request a b = rw (append_assoc request.socket.output a b)

write_headers_lem :
    (response : Response) (request : Request) (text : Str)
    → header_text response ≡ ok text
    → has_headers request.version ≡ true
    → write_headers response request ≡ ok (write request text)
write_headers_lem response request text h k = rw k (rw h)

pub send_headers_lem :
    (response full : Response) (request : Request) (text : Str) (date : Option Str)
    → response.headers_sent ≡ false
    → has_headers request.version ≡ true
    → add_general_headers response request.server date ≡ ok full
    → header_text full ≡ ok text
    → send_headers response request date
      ≡ ok (record full { headers_sent = true }, write request text)
unfolding send_headers
send_headers_lem response full request text date unsent takes h k =
    let e = write_headers_lem full request text k takes in
    if_false response.headers_sent _ _ unsent ∙ rw h (rw e)

send_headers-sent :
    (response : Response) (request : Request) (date : Option Str)
    → response.headers_sent ≡ true
    → send_headers response request date ≡ ok (response, request)
unfolding send_headers
send_headers-sent response request date sent = if_true response.headers_sent _ _ sent

send_headers-old :
    (response full : Response) (request : Request) (date : Option Str)
    → response.headers_sent ≡ false
    → has_headers request.version ≡ false
    → add_general_headers response request.server date ≡ ok full
    → send_headers response request date ≡ ok (record full { headers_sent = true }, request)
unfolding send_headers
send_headers-old response full request date unsent old h =
    let e : write_headers full request ≡ ok request = rw old in
    if_false response.headers_sent _ _ unsent ∙ rw h (rw e)

-- A response with content that is sent for the first time, to a client that takes headers, by a
-- server with a signature: what is put on the connection is the status line, the fields of the
-- response, Content-Length, Date, Connection and Server, an empty line, and the content, whose
-- length is the one that Content-Length states.
pub response_send-wire :
    (response : Response) (request : Request) (fields : Fields)
    (message content date signature : Str)
    → response.headers ≡ as_headers fields
    → response.status_message ≡ some message
    → HasContent response content
    → response.headers_sent ≡ false
    → has_headers request.version ≡ true
    → request.server ≡ some (some signature)
    → 0 < length date
    → 0 < length signature
    → (response' : Response) × (response_send response request (some date)
        ≡ ok (
          response',
          write request (
              head_text response.status_code message
                (fields ++ general_fields (length content) date signature)
              ++ content),
        ))
      × (response'.headers_sent ≡ true)
unfolding response_send
response_send-wire response request fields message content date signature h m (b, n, c) unsent takes
      server d s =
    let all = fields ++ general_fields (length content) date signature in
    let e1 = add_general_headers_lem response fields (length content) date signature h n d s in
    let e1' : add_general_headers response request.server (some date)
        ≡ ok (with_fields response all) =
      rw server e1 in
    let e2 = header_text-with_fields response all message m in
    let e3 = content_to_write_lem content response.content_buffer response.content_length b n c in
    (
      record response { headers = as_headers all; headers_sent = true },
      rw
          (send_headers_lem response (with_fields response all) request _ (some date) unsent takes
            e1' e2)
          (rw e3 (rw (write-write request _ content))),
      refl,
    )

-- A response whose headers have been sent, or that goes to a client of HTTP/0.9 or of no version, puts
-- only its content on the connection.
response_send-content :
    (response : Response) (request : Request) (fields : Fields) (content date signature : Str)
    → response.headers ≡ as_headers fields
    → HasContent response content
    → (response.headers_sent ≡ true) ⊎ (has_headers request.version ≡ false)
    → request.server ≡ some (some signature)
    → 0 < length date
    → 0 < length signature
    → (response' : Response) × (response_send response request (some date)
        ≡ ok (response', write request content))
      × (response'.headers_sent ≡ true)
unfolding response_send
response_send-content response request fields content date signature h (b, n, c) why server d s =
    let e3 = content_to_write_lem content response.content_buffer response.content_length b n c in
    elim why [
      | inl sent ↦
          (response, rw (send_headers-sent response request (some date) sent) (rw e3), sent)
      | inr old ↦ elim (Bool-cases response.headers_sent) [
        | inl sent ↦
            (response, rw (send_headers-sent response request (some date) sent) (rw e3), sent)
        | inr unsent ↦
            let all = fields ++ general_fields (length content) date signature in
            let e1 =
              add_general_headers_lem response fields (length content) date signature h n d s in
            let e1' : add_general_headers response request.server (some date)
                ≡ ok (with_fields response all) =
              rw server e1 in
            (
              record response { headers = as_headers all; headers_sent = true },
              rw
                  (send_headers-old response (with_fields response all) request (some date) unsent
                    old e1')
                  (rw e3),
              refl,
            )
      ]
    ]
