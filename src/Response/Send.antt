-- ===== src/Response/Send.antt =====
-- `redhttp_response_send` of src/redhttp/response.c.
pub mod General
pub mod Wire
pub mod Streamed
use redstore.Base.{
  ℕ, zero, suc, ◌+◌, ◌-◌, ◌/◌, Bool, true, false, not, Option, none, some, List, [], ◌∷◌, ◌++◌, leb,
  if◌then◌else◌, length, take, assertion, bad_read, Result, ok, fault, ◌>>=◌, ◌>>◌, Str, codes,
  strn_eq, ℤ, pos, negsuc, decimal,
}
use redstore.Headers.{Headers, headers_print}
use redstore.Socket.{Socket}
use redstore.Request.{Request, not_null}
use redstore.Response.{Response, add_header, add_time_header}

-- Output that is appended to the stream.
unfoldable pub write : Request → List ℕ → Request
write request bytes = record request {
  socket = record request.socket { output = request.socket.output ++ bytes };
}

-- The header for a length that is known.
unfoldable pub add_content_length : Response → ℤ → Result Response
add_content_length response (pos n) =
    add_header response (codes "Content-Length") (some (decimal n))
add_content_length response (negsuc n) = ok response

-- The header for the signature of a server that has one.
unfoldable pub add_server : Response → Option (Option Str) → Result Response
add_server response (some (some signature)) = add_header response (codes "Server") (some signature)
add_server response server = ok response

-- The headers that every response gets.
unfoldable pub add_general_headers : Response → Option (Option Str) → Option Str → Result Response
unfolding add_content_length add_server
add_general_headers response server date = do
  sized ← add_content_length response response.content_length
  dated ← add_time_header sized (codes "Date") date
  closing ← add_header dated (codes "Connection") (some (codes "Close"))
  add_server closing server

-- The status line and the headers, with the empty line behind them.
unfoldable pub header_text : Response → Result Str
header_text response = do
  message ← not_null response.status_message
  headers ← headers_print response.headers
  ok (
      codes "HTTP/1.0 "
      ++ (decimal response.status_code
          ++ b' ' ∷ (message ++ b'\r' ∷ b'\n' ∷ (headers ++ b'\r' ∷ b'\n' ∷ []))))

-- `version && strncmp(version, "0.9", 3) != 0`
abbrev pub has_headers : Option Str → Bool
has_headers none = false
has_headers (some version) = not (strn_eq 3 version (codes "0.9"))

abbrev pub write_headers : Response → Request → Result Request
write_headers response request =
    if has_headers request.version
    then (do text ← header_text response; ok (write request text))
    else ok request

unfoldable pub send_headers : Response → Request → Option Str → Result (Response × Request)
unfolding write
send_headers response request date = if response.headers_sent then ok (response, request) else do
  full ← add_general_headers response request.server date
  request' ← write_headers full request
  ok (record full { headers_sent = true }, request')

-- `fwrite(content_buffer, 1, content_length, socket)`, behind the assertion on the length
abbrev content_to_write : Option (List ℕ) → ℤ → Result (List ℕ)
content_to_write none length = ok []
content_to_write (some content) (negsuc n) = fault assertion
content_to_write (some content) (pos zero) = fault assertion
content_to_write (some content) (pos (suc n)) =
    if leb (suc n) (length content) then ok (take (suc n) content) else fault bad_read

unfoldable pub response_send : Response → Request → Option Str → Result (Response × Request)
unfolding send_headers
response_send response request date = do
  (response', request') ← send_headers response request date
  content ← content_to_write response'.content_buffer response'.content_length
  ok (response', write request' content)
