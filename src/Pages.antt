-- ===== src/Pages.antt =====
-- src/pages.c: the pages of the program. A page is a response with the text that its iostream has
-- taken.
pub mod Message
pub mod Forms
pub mod Faults
mod Tests
use redstore.Base.{
  ℕ, ◌+◌, ◌-◌, ◌/◌, ◌<◌, true, Option, none, some, List, [], ◌∷◌, ◌++◌, ◌==◌, if◌then◌else◌, length,
  take, null_pointer, Result, ok, fault, Str, codes, decimal, suc, ℤ, pos, negsuc,
}
use redstore.Request.{Request}
use redstore.Response.{
  Response, status_message_for_code, or_unknown, response_new_with_type, set_content, add_header,
}
use redstore.Format.{negotiate_string, is_html_format}
use redstore.Request.{not_null}
use redstore.Platform.{LogLevel, Platform}
use redstore.Program.{Program, Action, lift, log}
use redstore.Program.Monad.{◌>>=◌, ◌>>◌, pure, the_request, the_program}

pub record Page : Type 0 where
  pub response : Response
  pub buffer : Str

unfoldable pub append_string : Page → Str → Page
append_string page str = record page { buffer = page.buffer ++ str }

unfoldable pub append_strings : Page → List Str → Page
append_strings page [] = page
append_strings page (str ∷ next) = append_strings (append_string page str) next

-- raptor_iostream_decimal_write
abbrev pub decimal_of : ℤ → Str
decimal_of (pos n) = decimal n
decimal_of (negsuc n) = b'-' ∷ decimal (suc n)

unfoldable pub append_decimal : Page → ℤ → Page
append_decimal page n = append_string page (decimal_of n)

-- The result of a step that may fail, and what follows.
abbrev pub after : {A B : Type 0} → Result A → (A → B) → Result B
after (fault broken) next = fault broken
after (ok a) next = ok (next a)

abbrev pub head_of : Str → List Str
head_of title =
    codes "<?xml version=\"1.0\" encoding=\"utf-8\"?>\n"
    ∷ codes "<!DOCTYPE html PUBLIC \"-//W3C//DTD XHTML 1.0 Strict//EN\"\n"
    ∷ codes "          \"http://www.w3.org/TR/xhtml1/DTD/xhtml1-strict.dtd\">\n"
    ∷ codes "<html xmlns=\"http://www.w3.org/1999/xhtml\">\n"
    ∷ codes "<head>\n"
    ∷ codes "  <meta charset=\"utf-8\" />\n"
    ∷ codes "  <title>RedStore - "
    ∷ title
    ∷ codes "</title>\n"
    ∷ codes "</head>\n"
    ∷ codes "<body>\n"
    ∷ codes "<h1>"
    ∷ title
    ∷ codes "</h1>\n"
    ∷ []

-- `if (!title)`, and the message of the status if so
abbrev page_title : Option Str → Response → Str
page_title none response = or_unknown response.status_message
page_title (some title) response = title

abbrev opened : Option Str → Response → Page
opened title response =
    append_strings (record { response = response; buffer = [] })
      (head_of (page_title title response))

unfoldable pub page_new : ℕ → Option Str → Result Page
unfolding append_strings
page_new code title =
    after (response_new_with_type (if code == 0 then 200 else code) none (some (codes "text/html")))
      (opened title)

-- raptor_stringbuffer_as_string, which is NULL for an empty buffer.
abbrev pub as_string : Str → Option Str
as_string [] = none
as_string (c ∷ s) = some (c ∷ s)

-- `printf("%s", NULL)` of glibc
abbrev pub printed_str : Option Str → Str
printed_str none = codes "(null)"
printed_str (some s) = s

-- `snprintf(text, text_len, "%s\n%s", ...)`, which stops before text_len bytes.
unfoldable pub message_text : Str → Option Str → Str
message_text message none = message ++ b'\n' ∷ []
message_text message (some errors) =
    take (length message + 1 + length errors) (message ++ b'\n' ∷ printed_str (as_string errors))

module _ (S : Platform) where
  open S use {double, xml_escape, librdf_version, raptor_version, rasqal_version, signature}

  unfoldable pub append_escaped : Page → Str → Page
  append_escaped page str = append_string page (xml_escape str)

  abbrev pub footer : List Str
  footer =
      codes "<hr /><address>"
      ∷ signature
      ∷ codes " librdf/"
      ∷ librdf_version
      ∷ codes " raptor/"
      ∷ raptor_version
      ∷ codes " rasqal/"
      ∷ rasqal_version
      ∷ codes "</address>\n"
      ∷ codes "</body></html>\n"
      ∷ []

  -- The response with the text of the page for its content.
  abbrev pub closed : Page → Result Response
  closed page = set_content page.response page.buffer (length page.buffer) true

  unfoldable pub page_end : Page → Result Response
  unfolding append_strings
  page_end page = closed (append_strings page footer)

  -- The text of a string buffer, escaped; its length is taken by `strlen`.
  abbrev pub append_string_buffer : Page → Option Str → Result Page
  append_string_buffer page none = fault null_pointer
  append_string_buffer page (some str) = ok (append_escaped page str)

  -- `if (error_buffer)` on a page
  abbrev pub append_errors : Page → Option Str → Result Page
  append_errors page none = ok page
  append_errors page (some errors) =
      after (append_string_buffer (append_string page (codes "<pre>")) (as_string errors))
        (λ page'. append_string page' (codes "</pre>"))

  unfoldable pub message_html : Str → Option Str → Page → Result Page
  unfolding append_escaped
  message_html message error_buffer page =
      append_errors
        (append_string (append_escaped (append_string page (codes "<p>")) message) (codes "</p>\n"))
        error_buffer

  abbrev html_page : ℕ → Str → Option Str → Action S.World Response
  html_page code message error_buffer = do
    page ← lift (page_new code (status_message_for_code code))
    page' ← lift (message_html message error_buffer page)
    lift (page_end page')

  abbrev text_page : ℕ → Str → Option Str → Action S.World Response
  text_page code message error_buffer = do
    response ← lift (response_new_with_type code none (some (codes "text/plain")))
    let content = message_text message error_buffer
    lift (set_content response content (length content) true)

  abbrev pub supported : Str
  supported = codes "text/plain,text/html,application/xhtml+xml"

  -- The format of a message; none is a null pointer, which is compared.
  abbrev pub message_format : Request → Result (Option Str)
  message_format request = negotiate_string double request supported (some (codes "text/plain"))

  unfoldable pub page_new_with_message : LogLevel → ℕ → Str → Action S.World (Option Response)
  page_new_with_message level code message = do
    request ← the_request
    program ← the_program
    format ← lift (message_format request)
    format_str ← lift (not_null format)
    response ←
        (if is_html_format format_str
          then html_page code message program.error_buffer
          else text_page code message program.error_buffer)
    log level
    pure (some response)
