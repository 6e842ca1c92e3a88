-- ===== src/Request/Read/HeaderLines.antt =====
-- The header lines that `redhttp_request_read` of src/redhttp/request.c reads.
use redstore.Base.{
  ℕ, zero, suc, ◌≤◌, ◌<◌, ◌≡◌, refl, sym, ap, ◌∙◌, Bool, false, some, [], ◌∷◌, ◌++◌, append_assoc,
  append-nil, arith, if_false, length, length-append, All, All-append, Result, ok, ok-injective,
  Str,
}
use redstore.Headers.{Headers, headers_parse_line, headers_print}
use redstore.Headers.Lines.{IsKey, IsValue, parse_line-printed}
use redstore.Headers.Fields.{Fields, as_headers, field_lines, headers_print-as_headers}
use redstore.Socket.{Socket}
use redstore.Socket.Lines.{CanAllocate}
use redstore.Socket.Crlf.{IsPlain, FitsBuffer, cstr-plain, read_line-crlf}
use redstore.Request.Read.{header_line, read_headers}
use redstore.Request.StatusLine.{is_empty}

-- The text of a field's line.
abbrev line_of : Str × Str → Str
line_of (key, value) = key ++ b':' ∷ b' ' ∷ value

-- A field that one line can carry.
abbrev pub IsField : Str × Str → Type 0
IsField (key, value) =
    (IsKey key × IsValue value)
    × ((All IsPlain key × All IsPlain value) × FitsBuffer (line_of (key, value)))

line_of-IsPlain : (f : Str × Str) → IsField f → All IsPlain (line_of f)
line_of-IsPlain (key, value) ((is_key, is_value), ((kp, vp), _)) =
    let colon : IsPlain b':' = ((ground arith, ground arith), ground arith) in
    let space : IsPlain b' ' = ((ground arith, ground arith), ground arith) in
    All-append IsPlain key (b':' ∷ b' ' ∷ value) kp (colon, (space, vp))

field_lines-cons :
    (f : Str × Str) (next : Fields) (rest : Str)
    → field_lines (f ∷ next) ++ rest ≡ line_of f ++ b'\r' ∷ b'\n' ∷ (field_lines next ++ rest)
field_lines-cons (key, value) next rest =
    append_assoc key _ rest
    ∙ ap (λ s. key ++ b':' ∷ b' ' ∷ s) (append_assoc value _ rest)
    ∙ sym (append_assoc key (b':' ∷ b' ' ∷ value) _)

line_of-FitsBuffer : (f : Str × Str) → IsField f → FitsBuffer (line_of f)
line_of-FitsBuffer (key, value) (_, (_, fits)) = fits

line_of-is_empty : (f : Str × Str) (t : Str) → IsField f → is_empty (line_of f ++ t) ≡ false
line_of-is_empty ([], value) t ((is_key, is_value), plain) = absurd (is_key.0 refl)
line_of-is_empty (c ∷ key, value) t (_, (((((no_nul, _), _), _), _), _)) = ground arith

parse_line_of :
    (headers : Headers) (f : Str × Str)
    → IsField f
    → headers_parse_line headers (line_of f) ≡ ok (headers ++ as_headers (f ∷ []))
parse_line_of headers (key, value) ((is_key, is_value), _) =
    parse_line-printed headers key value is_key is_value

-- One line is read, and the next are left.
header_line_of :
    (next : Headers → Socket → Result (Headers × Socket)) (headers : Headers) (f : Str × Str)
    (size : ℕ) (sock : Socket)
    → IsField f
    → header_line next headers (some (record { bytes = line_of f ++ 0 ∷ []; size = size }), sock)
      ≡ next (headers ++ as_headers (f ∷ [])) sock
header_line_of next headers f size sock h =
    let plain = line_of-IsPlain f h in
    rw (line_of-is_empty f (0 ∷ []) h)
      (rw (cstr-plain (line_of f) plain) (rw (parse_line_of headers f h)))

read_headers-fields :
    (can_allocate : ℕ → Bool) (fields : Fields) (fuel : ℕ) (headers : Headers) (sock : Socket)
    (rest : Str)
    → CanAllocate can_allocate
    → All IsField fields
    → sock.input ≡ field_lines fields ++ b'\r' ∷ b'\n' ∷ rest
    → sock.eof ≡ false
    → length fields < fuel
    → read_headers can_allocate fuel headers sock
      ≡ ok
          (headers ++ as_headers fields, record { input = rest; eof = false; output = sock.output })
unfolding read_headers
read_headers-fields can_allocate fields zero headers sock rest memory h e more k =
    absurd (omega arith)
read_headers-fields can_allocate [] (suc fuel) headers sock rest memory h e more k =
    let (size, er) = read_line-crlf can_allocate sock [] rest memory tt (omega arith) e in
    if_false sock.eof _ _ more ∙ rw er (rw (append-nil headers))
read_headers-fields can_allocate (f ∷ fields) (suc fuel) headers sock rest memory (p, h) e more k =
    let after = field_lines fields ++ b'\r' ∷ b'\n' ∷ rest in
    let (size, er) =
      read_line-crlf can_allocate sock (line_of f) after memory (line_of-IsPlain f p)
        (line_of-FitsBuffer f p) (e ∙ field_lines-cons f fields _) in
    let sock' : Socket = record { input = after; eof = false; output = sock.output } in
    let ih =
      read_headers-fields can_allocate fields fuel (headers ++ as_headers (f ∷ [])) sock' rest
        memory h refl refl (omega arith) in
    if_false sock.eof _ _ more
    ∙ rw er (
        header_line_of (read_headers can_allocate fuel) headers f size sock' p
        ∙ ih
        ∙ rw (append_assoc headers (as_headers (f ∷ [])) (as_headers fields)))

length-field_lines : (fields : Fields) → length fields ≤ length (field_lines fields)
length-field_lines [] = omega arith
length-field_lines ((key, value) ∷ fields) =
    let ih = length-field_lines fields in
    let l = length-append key (b':' ∷ b' ' ∷ (value ++ b'\r' ∷ b'\n' ∷ field_lines fields)) in
    let m = length-append value (b'\r' ∷ b'\n' ∷ field_lines fields) in omega arith

-- What `headers_print` prints for fields is read back as these headers, behind those that are there,
-- by the loop that reads the headers; it stops behind the empty line that follows. The fields have a
-- name without a colon and a value that does not begin with white space, and no byte of either is a
-- NUL, a carriage return or a newline; the line of a field is shorter than 2^30 bytes, and there is memory for
-- it.
pub read_headers-headers_print :
    (can_allocate : ℕ → Bool) (headers : Headers) (fields : Fields) (sock : Socket)
    (text rest : Str)
    → CanAllocate can_allocate
    → All IsField fields
    → headers_print (as_headers fields) ≡ ok text
    → sock.input ≡ text ++ b'\r' ∷ b'\n' ∷ rest
    → sock.eof ≡ false
    → read_headers can_allocate (suc (length sock.input)) headers sock
      ≡ ok
          (headers ++ as_headers fields, record { input = rest; eof = false; output = sock.output })
read_headers-headers_print can_allocate headers fields sock text rest memory h printed e more =
    let same : text ≡ field_lines fields =
      ok-injective (sym printed ∙ headers_print-as_headers fields) in
    let e' : sock.input ≡ field_lines fields ++ b'\r' ∷ b'\n' ∷ rest = rw same at e in
    let l = length-append (field_lines fields) (b'\r' ∷ b'\n' ∷ rest) in
    let m : length sock.input ≡ length (field_lines fields ++ b'\r' ∷ b'\n' ∷ rest) =
      ap length e' in
    let k = length-field_lines fields in
    read_headers-fields can_allocate fields _ headers sock rest memory h e' more (omega arith)
