-- ===== src/Response.antt =====
-- src/redhttp/response.c. Strings and buffers that malloc returns are taken to be there. The time
-- header takes the text that strftime gives.
pub mod Page
pub mod Send
mod Tests
use redstore.Base.{
  ℕ, ◌+◌, ◌-◌, ◌/◌, ◌%◌, ◌^◌, ◌<◌, Bool, true, false, ◌&&◌, Option, none, some, List, [], ◌∷◌, ◌++◌,
  ltb, leb, ◌==◌, if◌then◌else◌, length, take, Result, ok, ◌>>=◌, ◌>>◌, assert, Str, codes, ℤ, pos,
  negsuc, decimal,
}
use redstore.Headers.{Headers, headers_add, headers_set}
use redstore.Request.Read.{int_of_word}

-- struct redhttp_response_s. Of `content_free_callback` only whether it is set is kept.
pub record Response : Type 0 where
  pub headers : Headers
  pub status_code : ℕ
  pub status_message : Option Str
  pub content_buffer : Option (List ℕ)
  pub content_length : ℤ
  pub content_free_callback : Bool
  pub user_data : ℕ
  pub headers_sent : Bool

abbrev status_messages : List (ℕ × Str)
status_messages =
    (200, codes "OK")
    ∷ (201, codes "Created")
    ∷ (202, codes "Accepted")
    ∷ (204, codes "No Content")
    ∷ (301, codes "Moved Permanently")
    ∷ (302, codes "Moved Temporarily")
    ∷ (303, codes "See Other")
    ∷ (304, codes "Not Modified")
    ∷ (400, codes "Bad Request")
    ∷ (401, codes "Unauthorized")
    ∷ (403, codes "Forbidden")
    ∷ (404, codes "Not Found")
    ∷ (405, codes "Method Not Allowed")
    ∷ (406, codes "Not Acceptable")
    ∷ (500, codes "Internal Server Error")
    ∷ (501, codes "Not Implemented")
    ∷ (502, codes "Bad Gateway")
    ∷ (503, codes "Service Unavailable")
    ∷ []

message_in : List (ℕ × Str) → ℕ → Option Str
message_in [] code = none
message_in ((known, message) ∷ next) code =
    if known == code then some message else message_in next code

unfoldable pub status_message_for_code : ℕ → Option Str
unfolding message_in
status_message_for_code code = message_in status_messages code

abbrev pub or_unknown : Option Str → Str
or_unknown none = codes "Unknown"
or_unknown (some message) = message

unfoldable set_status_message : Response → Option Str → Response
set_status_message response message = record response { status_message = some (or_unknown message) }

-- `code >= 100 && code < 1000`
abbrev pub is_status : ℕ → Bool
is_status code = leb 100 code && ltb code 1000

unfoldable set_status_code : Response → ℕ → Result Response
unfolding set_status_message
set_status_code response code = do
  assert (is_status code)
  ok (set_status_message (record response { status_code = code }) (status_message_for_code code))

-- What `calloc` gives, with the content length -1.
abbrev blank_response : Response
blank_response = record {
  headers = [];
  status_code = 0;
  status_message = none;
  content_buffer = none;
  content_length = negsuc 0;
  content_free_callback = false;
  user_data = 0;
  headers_sent = false;
}

abbrev with_message : Response → Option Str → Response
with_message response none = response
with_message response (some message) = set_status_message response (some message)

unfoldable pub response_new : ℕ → Option Str → Result Response
unfolding set_status_code
response_new code message = do
  assert (is_status code)
  response ← set_status_code blank_response code
  ok (with_message response message)

unfoldable pub response_new_empty : ℕ → Result Response
unfolding response_new
response_new_empty status = do
  response ← response_new status none
  ok (record response { content_length = pos 0 })

unfoldable pub add_header : Response → Str → Option Str → Result Response
add_header response key value = do
  headers ← headers_add response.headers key value
  ok (record response { headers = headers })

unfoldable set_header : Response → Str → Option Str → Result Response
set_header response key value = do
  headers ← headers_set response.headers key value
  ok (record response { headers = headers })

unfoldable pub response_new_with_type : ℕ → Option Str → Option Str → Result Response
unfolding response_new add_header
response_new_with_type status message type = do
  response ← response_new status message
  add_header response (codes "Content-Type") type

-- The page that ERROR_PAGE_FMT makes.
unfoldable pub error_page : ℕ → Str → Str → Str
error_page code message explanation =
    let title = decimal code ++ b' ' ∷ message in
    codes
      "<?xml version=\"1.0\" encoding=\"utf-8\"?>\n<!DOCTYPE html PUBLIC \"-//W3C//DTD XHTML 1.0 Strict//EN\"\n \"http://www.w3.org/TR/xhtml1/DTD/xhtml1-strict.dtd\">\n<html xmlns=\"http://www.w3.org/1999/xhtml\">\n<head><meta charset=\"utf-8\" /><title>"
    ++ (title
        ++ (codes "</title></head>\n<body>\n<h1>"
            ++ (title ++ (codes "</h1>\n<p>" ++ (explanation ++ codes "</p>\n</body></html>\n")))))

abbrev pub or_empty : Option Str → Str
or_empty none = []
or_empty (some s) = s

-- The response with a page for its content.
abbrev with_page : Response → Str → Response
with_page response page = record response {
  content_length = pos (length page);
  content_buffer = some page;
  content_free_callback = true;
}

unfoldable pub response_new_error_page : ℕ → Option Str → Result Response
unfolding response_new_with_type
response_new_error_page code explanation = do
  response ← response_new_with_type code none (some (codes "text/html"))
  assert (is_status code)
  ok (
      with_page response
        (error_page code (or_unknown response.status_message) (or_empty explanation)))

unfoldable pub redirect_message : Str → Str
redirect_message url = codes "The document has moved <a href=\"" ++ (url ++ codes "\">here</a>.")

unfoldable pub response_new_redirect : Str → ℕ → Result Response
unfolding response_new_error_page
response_new_redirect url code = do
  response ← response_new_error_page (if code == 0 then 301 else code) (some (redirect_message url))
  add_header response (codes "Location") (some url)

-- The text is what gmtime and strftime give; `none` is a failure of either.
unfoldable pub add_time_header : Response → Str → Option Str → Result Response
unfolding add_header
add_time_header response key none = ok response
add_time_header response key (some date) = add_header response key (some date)

unfoldable pub set_content : Response → List ℕ → ℕ → Bool → Result Response
set_content response content length callback = do
  assert (ltb 0 length)
  ok (record response {
    content_buffer = some content;
    content_length = int_of_word (length % 2 ^ 32);
    content_free_callback = callback;
  })

-- The copy has a terminator behind its `n` bytes.
unfoldable copy_content : Response → List ℕ → ℕ → Result Response
unfolding set_content
copy_content response content n = do
  assert (ltb 0 n)
  set_content response (take n content ++ 0 ∷ []) n true
