-- ===== src/Request/Read/Whole.antt =====
-- A whole request that `redhttp_request_read` of src/redhttp/request.c reads.
use redstore.Base.{
  ℕ, ◌≡◌, refl, ◌∙◌, ◌≢◌, Bool, true, false, none, some, [], ◌∷◌, ◌++◌, map, if_false, All, ok, Str,
  codes, cstr, strn_eq, strchr, isalpha, toupper,
}
use redstore.Headers.Fields.{Fields, as_headers, field_lines, headers_print-as_headers}
use redstore.Url.{url_unescape}
use redstore.Socket.Lines.{CanAllocate}
use redstore.Socket.Crlf.{FitsBuffer}
use redstore.Request.{Request}
use redstore.Request.StatusLine.Parts.{IsGraphic, status_text, read_status_line_lem}
use redstore.Request.Read.{request_read}
use redstore.Request.Read.HeaderLines.{IsField, read_headers-headers_print}

-- The parts of a request that is not a POST: a method of letters, a path without a query, a version
-- that has headers, and header fields.
pub record IsPlainRequest (method path version : Str) (fields : Fields) : Type 0 where
  pub method_set : method ≢ []
  pub letters : All (λ c. isalpha c ≡ true) method
  pub no_post : strn_eq 4 (map toupper method) (codes "POST") ≡ false
  pub path_set : path ≢ []
  pub path_graphic : All IsGraphic path
  pub no_query : strchr b'?' path ≡ none
  pub version_graphic : All IsGraphic version
  pub fits : FitsBuffer (status_text method path version)
  pub headers_expected : strn_eq 3 version (codes "0.9") ≡ false
  pub are_fields : All IsField fields

-- The text of a request.
abbrev pub request_text : Str → Str → Str → Fields → Str → Str
request_text method path version fields rest =
    status_text method path version ++ b'\r' ∷ b'\n' ∷ (field_lines fields ++ b'\r' ∷ b'\n' ∷ rest)

-- What has been read of it.
abbrev pub received : Request → Str → Str → Str → Fields → Str → Request
received request method path version fields rest = record request {
  method = some (map toupper method);
  path_and_query = some path;
  path = some (cstr (url_unescape path));
  version = some version;
  headers = request.headers ++ as_headers fields;
  socket = record { input = rest; eof = false; output = request.socket.output };
}

-- A request is read to the empty line behind its headers: it has the method in upper case, the path,
-- decoded too, the version, and the header fields, which are those of the text. The method is of
-- letters and does not begin with POST, the path has no question mark, path and version are without
-- white space, and the version does not begin with 0.9, for which no headers are read; the header fields
-- are well formed, the lines are shorter than 2^30 bytes, and there is memory for them.
pub request_read-request_text :
    (can_allocate : ℕ → Bool) (request : Request) (method path version : Str) (fields : Fields)
    (rest : Str)
    → CanAllocate can_allocate
    → IsPlainRequest method path version fields
    → request.socket.input ≡ request_text method path version fields rest
    → request_read can_allocate request ≡ ok (received request method path version fields rest, 0)
unfolding request_read
request_read-request_text can_allocate request method path version fields rest memory h e =
    let after = field_lines fields ++ b'\r' ∷ b'\n' ∷ rest in
    let status =
      read_status_line_lem can_allocate request method path version after memory h.method_set
        h.letters h.path_set h.path_graphic h.version_graphic h.no_query h.fits e in
    let lines =
      read_headers-headers_print can_allocate request.headers fields
        (record { input = after; eof = false; output = request.socket.output }) (field_lines fields)
        rest memory h.are_fields (headers_print-as_headers fields) refl refl in
    rw status (if_false _ _ _ h.headers_expected ∙ rw lines (if_false _ _ _ h.no_post))
