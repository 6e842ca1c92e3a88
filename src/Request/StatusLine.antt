-- ===== src/Request/StatusLine.antt =====
-- `redhttp_request_read_status_line` of src/redhttp/request.c.
pub mod Parts
pub mod Overread
use redstore.Base.{
  ℕ, ◌+◌, ◌/◌, Bool, true, ◌&&◌, ◌||◌, not, Option, none, some, List, [], ◌∷◌, ltb, ◌==◌,
  if◌then◌else◌, length, drop, bad_read, Result, ok, fault, ◌>>=◌, ◌>>◌, Str, codes, cstr, strn_eq,
  isspace, isalpha, skip_while, take_while, trim_right,
}
use redstore.Socket.{Socket, Line, bufsiz, read_line}
use redstore.Request.{Request}
use redstore.Request.Setters.{set_method, set_path_and_query, set_version}

-- The byte behind the terminator of a line: NUL in the buffer that calloc gave, unless the line
-- fills it or it has grown.
unfoldable pub behind_end : Line → Result ℕ
behind_end line = if ltb (length line.bytes + 1) bufsiz then ok 0 else fault bad_read

abbrev pub is_gap : ℕ → Bool
is_gap c = isspace c && not (c == b'\n')

-- `*ptr == '\n' || *ptr == '\0'`, at the end of the bytes too
abbrev pub is_end : List ℕ → Bool
is_end [] = true
is_end (c ∷ s) = c == b'\n' || c == 0

-- The text behind the byte after the method, which is overwritten. Where the method ends with the
-- line, that is behind the terminator.
abbrev behind_method : Line → List ℕ → Result (List ℕ)
behind_method line [] = do c ← behind_end line; ok (c ∷ [])
behind_method line (c ∷ s) = ok s

-- The last run of bytes that are not white space, and what stands before the white space before it.
unfoldable pub split_last_space : Str → Option (Str × Str)
split_last_space [] = none
split_last_space (c ∷ s) = elim (split_last_space s) [
  | some (before, token) ↦ some (c ∷ before, token)
  | none ↦ if isspace c then some ([], s) else none
]

abbrev pub is_version : Str → Bool
is_version token = strn_eq 5 (codes "HTTP/") token || strn_eq 5 (codes "http/") token

-- The path and the version in the trimmed text.
abbrev pub path_and_version : Str → Option (Str × Str) → Str × Str
path_and_version text none = (text, codes "0.9")
path_and_version text (some (before, token)) =
    if is_version token then (trim_right before, drop 5 token) else (text, codes "0.9")

-- The path and the version that start at a place behind the method; `none` is REDHTTP_BAD_REQUEST.
abbrev pub split_path : Str → List ℕ → Option (Str × Str × Str)
split_path method start =
    let text = trim_right (cstr start) in
    let (path, version) = path_and_version text (split_last_space text) in
    if is_end start then none else some (method, path, version)

-- Method, path and version of a line.
unfoldable pub split_status_line : Line → Result (Option (Str × Str × Str))
unfolding behind_end split_last_space
split_status_line line = do
  let ptr = skip_while isspace line.bytes
  rest ← behind_method line (skip_while isalpha ptr)
  ok (split_path (take_while isalpha ptr) (skip_while is_gap rest))

abbrev bad_request : ℕ
bad_request = 400

-- What is done with the parts; the second part of the result is what the function returns.
abbrev set_parts : Request → Option (Str × Str × Str) → Result (Request × ℕ)
set_parts request none = ok (request, bad_request)
set_parts request (some (method, path_and_query, version)) = do
  request' ← set_path_and_query (set_method request (some method)) (some path_and_query)
  ok (set_version request' (some version), 0)

-- `strlen(line) == 0`
abbrev pub is_empty : List ℕ → Bool
is_empty [] = true
is_empty (c ∷ s) = c == 0

abbrev status_of_line : Request → Option Line → Result (Request × ℕ)
status_of_line request none = ok (request, bad_request)
status_of_line request (some line) =
    if is_empty line.bytes
    then ok (request, bad_request)
    else do parts ← split_status_line line; set_parts request parts

unfoldable pub read_status_line : (ℕ → Bool) → Request → Result (Request × ℕ)
read_status_line can_allocate request = do
  (line, socket) ← read_line can_allocate request.socket
  status_of_line (record request { socket = socket }) line
