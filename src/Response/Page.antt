-- ===== src/Response/Page.antt =====
-- What the constructors of src/redhttp/response.c return.
use redstore.Base.{
  negsuc, ℕ, ◌≡◌, refl, ◌≢◌, Bool, true, false, Option, none, some, List, [], ◌∷◌, ◌++◌, ◌==◌,
  if◌then◌else◌, length, ok, Str, codes, pos,
}
use redstore.Headers.{Headers, headers_add}
use redstore.Response.{
  Response, response_new, set_status_code, set_status_message, status_message_for_code, or_unknown,
  or_empty, is_status, response_new_empty, response_new_error_page, response_new_redirect,
  redirect_message, add_header, error_page,
}

-- The content of a response is a text of the length that the response states.
abbrev pub HasContent : Response → Str → Type 0
HasContent r content =
    (r.content_buffer ≡ some content) × (r.content_length ≡ pos (length content)) × (content ≢ [])

-- A response with a status, its message and some headers, which has not been sent.
pub record IsFresh (r : Response) (code : ℕ) (headers : Headers) : Type 0 where
  pub status : r.status_code ≡ code
  pub message : r.status_message ≡ some (or_unknown (status_message_for_code code))
  pub header_list : r.headers ≡ headers
  pub unsent : r.headers_sent ≡ false

-- The record that the constructors end with.
abbrev fresh : ℕ → Headers → Option (List ℕ) → ℕ → Bool → Response
fresh code headers content n callback = record {
  headers = headers;
  status_code = code;
  status_message = some (or_unknown (status_message_for_code code));
  content_buffer = content;
  content_length = pos n;
  content_free_callback = callback;
  user_data = 0;
  headers_sent = false;
}

fresh-IsFresh :
    (code : ℕ) (headers : Headers) (content : Option (List ℕ)) (n : ℕ) (callback : Bool)
    → IsFresh (fresh code headers content n callback) code headers
fresh-IsFresh code headers content n callback = record {
  status = refl;
  message = refl;
  header_list = refl;
  unsent = refl;
}

-- The response that `response_new 200 none` makes: its length is not known.
abbrev pub ok_response : Response
ok_response = record {
  headers = [];
  status_code = 200;
  status_message = some (codes "OK");
  content_buffer = none;
  content_length = negsuc 0;
  content_free_callback = false;
  user_data = 0;
  headers_sent = false;
}

pub response_new-ok : response_new 200 none ≡ ok ok_response
unfolding response_new set_status_code set_status_message status_message_for_code
response_new-ok = refl

-- An empty response has its status and length 0, and no content.
pub response_new_empty_lem :
    (code : ℕ)
    → is_status code ≡ true
    → (r : Response) × (response_new_empty code ≡ ok r)
      × IsFresh r code []
      × (r.content_buffer ≡ none)
      × (r.content_length ≡ pos 0)
unfolding response_new_empty
response_new_empty_lem code h =
    (fresh code [] none 0 false, rw h, fresh-IsFresh code [] none 0 false, refl, refl)

error_page-ne_nil :
    (code : ℕ) (message explanation : Str) → error_page code message explanation ≢ []
unfolding error_page
error_page-ne_nil code message explanation e = cc e

abbrev pub html_type : Headers
html_type = record { key = codes "Content-Type"; value = some (codes "text/html") } ∷ []

-- An error page has its status, the type text/html, and the page for its content.
pub response_new_error_page_lem :
    (code : ℕ) (explanation : Option Str)
    → is_status code ≡ true
    → (r : Response) × (response_new_error_page code explanation ≡ ok r)
      × IsFresh r code html_type
      × HasContent r
          (error_page code (or_unknown (status_message_for_code code)) (or_empty explanation))
unfolding response_new_error_page headers_add
response_new_error_page_lem code explanation h =
    let page = error_page code (or_unknown (status_message_for_code code)) (or_empty explanation) in
    (
      fresh code html_type (some page) (length page) true,
      rw h,
      fresh-IsFresh code html_type (some page) (length page) true,
      (refl, refl, error_page-ne_nil code _ _),
    )

-- A redirect has its status, 301 if none is given, and its target in the Location header.
pub response_new_redirect_lem :
    (url : Str) (code : ℕ)
    → url ≢ []
    → is_status (if code == 0 then 301 else code) ≡ true
    → (r : Response) × (response_new_redirect url code ≡ ok r)
      × IsFresh r
          (if code == 0 then 301 else code)
          (html_type ++ record { key = codes "Location"; value = some url } ∷ [])
      × HasContent r (
          error_page
            (if code == 0 then 301 else code)
            (or_unknown (status_message_for_code (if code == 0 then 301 else code)))
            (redirect_message url))
unfolding response_new_redirect add_header headers_add
response_new_redirect_lem [] code n h = absurd (n refl)
response_new_redirect_lem (c ∷ url) code n h =
    let status = if code == 0 then 301 else code in
    let page =
      error_page status (or_unknown (status_message_for_code status))
        (redirect_message (c ∷ url)) in
    let headers : Headers =
      html_type ++ record { key = codes "Location"; value = some (c ∷ url) } ∷ [] in
    (
      fresh status headers (some page) (length page) true,
      rw h,
      fresh-IsFresh status headers (some page) (length page) true,
      (refl, refl, error_page-ne_nil status _ _),
    )
