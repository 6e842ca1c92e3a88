-- ===== src/Request/Read.antt =====
-- `redhttp_request_read` of src/redhttp/request.c. Whether calloc gives a buffer of the size that the
-- client asks for is a parameter.
pub mod HeaderLines
pub mod Content
pub mod Whole
use redstore.Base.{
  ℕ, zero, suc, ◌+◌, ◌-◌, ◌/◌, ◌%◌, ◌^◌, Bool, not, Option, none, some, [], ◌∷◌, ltb, ◌==◌,
  if◌then◌else◌, length, Result, ok, ◌>>=◌, ◌>>◌, Str, codes, cstr, strn_eq, isspace, skip_while, ℤ,
  pos, negsuc, read_digits,
}
use redstore.Headers.{Headers, headers_get, headers_parse_line}
use redstore.Socket.{Socket, Line, read_line, fread}
use redstore.Request.{Request, not_null}
use redstore.Request.Arguments.{parse_arguments}
use redstore.Request.StatusLine.{is_empty, read_status_line}

-- atoi of glibc: strtol, which stops at the ends of `long`, and its low 32 bits as an `int`.
unfoldable pub int_of_word : ℕ → ℤ
int_of_word w = if ltb w (2 ^ 31) then pos w else negsuc (2 ^ 32 - 1 - w)

abbrev at_most : ℕ → ℕ → ℕ
at_most limit n = if ltb limit n then limit else n

abbrev atoi_signed : Str → ℤ
atoi_signed [] = pos 0
atoi_signed (c ∷ s) =
    if c == b'-'
    then int_of_word ((2 ^ 32 - at_most (2 ^ 63) (read_digits 0 s) % 2 ^ 32) % 2 ^ 32)
    else if c == b'+'
    then int_of_word (at_most (2 ^ 63 - 1) (read_digits 0 s) % 2 ^ 32)
    else int_of_word (at_most (2 ^ 63 - 1) (read_digits 0 (c ∷ s)) % 2 ^ 32)

unfoldable pub atoi : Str → ℤ
unfolding int_of_word
atoi s = atoi_signed (skip_while isspace s)

-- The conversion of an `int` to `size_t`.
abbrev pub size_of_int : ℤ → ℕ
size_of_int (pos n) = n
size_of_int (negsuc n) = 2 ^ 64 - 1 - n

abbrev size_add_one : ℕ → ℕ
size_add_one n = (n + 1) % 2 ^ 64

abbrev bad_request : ℕ
bad_request = 400

-- One round of the loop over the header lines, before the next rounds.
abbrev header_line :
    (Headers → Socket → Result (Headers × Socket))
    → Headers
    → Option Line × Socket
    → Result (Headers × Socket)
header_line next headers (none, sock) = ok (headers, sock)
header_line next headers (some line, sock) =
    if is_empty line.bytes
    then ok (headers, sock)
    else (headers_parse_line headers (cstr line.bytes) >>= λ headers'. next headers' sock)

-- The headers up to an empty line or the end of the input. The fuel, one more than the length of the
-- input, is enough.
unfoldable pub read_headers : (ℕ → Bool) → ℕ → Headers → Socket → Result (Headers × Socket)
read_headers can_allocate zero headers sock = ok (headers, sock)
read_headers can_allocate (suc fuel) headers sock =
    if sock.eof
    then ok (headers, sock)
    else (read_line can_allocate sock >>= header_line (read_headers can_allocate fuel) headers)

module _ (can_allocate : ℕ → Bool) where
  -- The content of a form, when its buffer has been allocated.
  abbrev read_form : Request → ℕ → Result (Request × ℕ)
  read_form request content_length = do
    (content, socket) ← fread (size_add_one content_length) content_length request.socket
    let request' = record request { socket = socket; content_buffer = some content }
    if not (size_of_int (int_of_word (length content % 2 ^ 32)) == content_length)
        then ok (request', bad_request)
        else do
          arguments ← parse_arguments request'.arguments (some (cstr content))
          ok (record request' { arguments = arguments }, 0)

  -- The branch for "application/x-www-form-urlencoded".
  abbrev read_form_content : Request → Str → Result (Request × ℕ)
  read_form_content request content_length_str =
      let content_length = size_of_int (atoi content_length_str) in
      let sized = record request { content_length = content_length } in
      if can_allocate (size_add_one content_length)
      then read_form sized content_length
      else ok (sized, 0)

  abbrev is_form : Str → Bool
  is_form content_type = strn_eq 33 content_type (codes "application/x-www-form-urlencoded")

  -- The content of a POST.
  abbrev read_content : Request → Option Str → Option Str → Result (Request × ℕ)
  read_content request (some content_type) (some content_length) =
      if is_form content_type then read_form_content request content_length else ok (request, 0)
  read_content request content_type content_length = ok (request, bad_request)

  abbrev pub read_body : Request → Result (Request × ℕ)
  read_body request = do
    method ← not_null request.method
    if strn_eq 4 method (codes "POST")
        then read_content request (headers_get request.headers (codes "Content-Type"))
            (headers_get request.headers (codes "Content-Length"))
        else ok (request, 0)

  -- What follows the status line, unless the version is 0.9 or there is none.
  abbrev read_rest : Request → Option Str → Result (Request × ℕ)
  read_rest request none = ok (request, 0)
  read_rest request (some version) = if strn_eq 3 version (codes "0.9") then ok (request, 0) else do
    (headers, socket) ←
        read_headers can_allocate (suc (length request.socket.input)) request.headers request.socket
    read_body (record request { headers = headers; socket = socket })

  abbrev after_status : Request × ℕ → Result (Request × ℕ)
  after_status (request, zero) = read_rest request request.version
  after_status (request, suc code) = ok (request, suc code)

  unfoldable pub request_read : Request → Result (Request × ℕ)
  request_read request = read_status_line can_allocate request >>= after_status
