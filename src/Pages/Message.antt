-- ===== src/Pages/Message.antt =====
-- The pages of src/pages.c that carry a message.
use redstore.Base.{
  ℕ, zero, suc, ◌<◌, ◌%◌, ◌^◌, ◌≡◌, refl, sym, ap, ◌∙◌, ◌≢◌, inl, inr, Bool, true, false, Option,
  none, some, List, [], ◌∷◌, ◌++◌, append_assoc, append-nil, arith, ◌==◌, Bool-cases, length, take,
  null_pointer, Result, ok, fault, Str, codes, negsuc,
}
use redstore.Headers.{Headers, headers_add}
use redstore.Request.{Request}
use redstore.Request.Read.{int_of_word}
use redstore.Response.{
  Response, status_message_for_code, or_unknown, is_status, response_new_with_type, set_content,
}
use redstore.Format.{is_html_format}
use redstore.Platform.{LogLevel, Platform}
use redstore.Program.{Program, redstore_log}
use redstore.Pages.{
  Page, page_new, page_end, append_strings, append_string, append_escaped, message_html,
  message_text, message_format, page_new_with_message, head_of, footer, closed,
}

-- The texts, one after another.
abbrev joined : List Str → Str
joined [] = []
joined (str ∷ next) = str ++ joined next

append_strings-joined :
    (page : Page) (strings : List Str)
    → append_strings page strings
      ≡ record { response = page.response; buffer = page.buffer ++ joined strings }
unfolding append_strings append_string
append_strings-joined page [] = ap (λ b. record page { buffer = b }) (sym (append-nil page.buffer))
append_strings-joined page (str ∷ next) =
    append_strings-joined (append_string page str) next
    ∙ ap (λ b. record page { buffer = b }) (append_assoc page.buffer str (joined next))

abbrev pub typed : Str → Headers
typed type = record { key = codes "Content-Type"; value = some type } ∷ []

-- A response that is made with a text for its content; the length is stored as an `int`.
abbrev pub filled : ℕ → Str → Str → Response
filled code type content = record {
  headers = typed type;
  status_code = code;
  status_message = some (or_unknown (status_message_for_code code));
  content_buffer = some content;
  content_length = int_of_word (length content % 2 ^ 32);
  content_free_callback = true;
  user_data = 0;
  headers_sent = false;
}

-- The response before it has content.
abbrev pub typed_response : ℕ → Str → Response
typed_response code type = record (filled code type []) {
  content_buffer = none;
  content_length = negsuc 0;
  content_free_callback = false;
}

response_new_with_type-typed :
    (code c : ℕ) (type : Str)
    → is_status code ≡ true
    → response_new_with_type code none (some (c ∷ type)) ≡ ok (typed_response code (c ∷ type))
unfolding response_new_with_type headers_add
response_new_with_type-typed code c type h = rw h refl

set_content-filled :
    (code : ℕ) (type content : Str)
    → content ≢ []
    → set_content (typed_response code type) content (length content) true
      ≡ ok (filled code type content)
unfolding set_content
set_content-filled code type [] h = absurd (h refl)
set_content-filled code type (c ∷ content) h = ground arith

-- A buffer of errors, if there is one, is not empty: an empty one has no string.
abbrev pub IsPrintable : Option Str → Type 0
IsPrintable errors = errors ≢ some []

take-ne_nil : (n : ℕ) (s : Str) → 0 < n → s ≢ [] → take n s ≢ []
take-ne_nil n [] h k = absurd (k refl)
take-ne_nil zero (c ∷ s) h k = absurd (omega arith)
take-ne_nil (suc n) (c ∷ s) h k = λ e. cc e

append-ne_nil : (s t : Str) (c : ℕ) → s ++ c ∷ t ≢ []
append-ne_nil [] t c e = cc e
append-ne_nil (d ∷ s) t c e = cc e

is_status-nonzero : (code : ℕ) → is_status code ≡ true → (code == 0) ≡ false
is_status-nonzero code h = ground arith

module _ (S : Platform) where
  open S use {xml_escape}

  abbrev errors_html : Option Str → Str
  errors_html none = []
  errors_html (some errors) = codes "<pre>" ++ (xml_escape errors ++ codes "</pre>")

  -- The text of a page with a title and a body.
  abbrev pub page_text : Str → Str → Str
  page_text title body = joined (head_of title) ++ (body ++ joined (footer S))

  abbrev pub message_body : Str → Option Str → Str
  message_body message errors =
      codes "<p>" ++ (xml_escape message ++ (codes "</p>\n" ++ errors_html errors))

  -- The message as it is sent, for a client that takes HTML or not.
  abbrev pub message_response : Bool → ℕ → Str → Option Str → Response
  message_response true code message errors =
      filled code (codes "text/html")
        (page_text (or_unknown (status_message_for_code code)) (message_body message errors))
  message_response false code message errors =
      filled code (codes "text/plain") (message_text message errors)

  -- A page with a title and a body, as it is left by page_new and as page_end closes it.
  abbrev pub begun : ℕ → Str → Page
  begun code title = record {
    response = typed_response code (codes "text/html");
    buffer = joined (head_of title);
  }

  abbrev with_body : Page → Str → Page
  with_body page body = record page { buffer = page.buffer ++ body }

  abbrev title_of : ℕ → Option Str → Str
  title_of code none = or_unknown (status_message_for_code code)
  title_of code (some title) = title

  page_new-begun :
      (code : ℕ) (title : Option Str)
      → is_status code ≡ true
      → page_new code title ≡ ok (begun code (title_of code title))
  unfolding page_new
  page_new-begun code none h =
      rw (is_status-nonzero code h, response_new_with_type-typed code _ _ h)
        (ap ok (append_strings-joined _ (head_of _)))
  page_new-begun code (some title) h =
      rw (is_status-nonzero code h, response_new_with_type-typed code _ _ h)
        (ap ok (append_strings-joined _ (head_of title)))

  title_of-status :
      (code : ℕ) (message : Option Str)
      → message ≡ status_message_for_code code
      → title_of code message ≡ or_unknown message
  title_of-status code none e = ap or_unknown (sym e)
  title_of-status code (some message) e = refl

  pub page_new-status :
      (code : ℕ)
      → is_status code ≡ true
      → page_new code (status_message_for_code code)
        ≡ ok (begun code (or_unknown (status_message_for_code code)))
  page_new-status code h =
      page_new-begun code (status_message_for_code code) h
      ∙ ap (λ t. ok (begun code t)) (title_of-status code (status_message_for_code code) refl)

  abbrev closing : ℕ → Str → Result Response
  closing code buffer =
      set_content (typed_response code (codes "text/html")) buffer (length buffer) true

  page_end-filled :
      (code : ℕ) (title body : Str)
      → page_end S (with_body (begun code title) body)
        ≡ ok (filled code (codes "text/html") (page_text title body))
  unfolding page_end
  page_end-filled code title body =
      ap (closed S) (append_strings-joined (with_body (begun code title) body) (footer S))
      ∙ (ap (closing code) (append_assoc (joined (head_of title)) body (joined (footer S)))
          ∙ set_content-filled code (codes "text/html") (page_text title body) (λ e. cc e))

  message_html-with_body :
      (message : Str) (errors : Option Str) (page : Page)
      → IsPrintable errors
      → message_html S message errors page ≡ ok (with_body page (message_body message errors))
  unfolding message_html append_string append_escaped
  message_html-with_body message none page h =
      ap (λ b. ok (record page { buffer = b })) (simp append_assoc)
  message_html-with_body message (some []) page h = absurd (h refl)
  message_html-with_body message (some (c ∷ errors)) page h =
      ap (λ b. ok (record page { buffer = b })) (simp append_assoc)

  -- An empty buffer of errors on a page of HTML.
  pub message_html-null :
      (message : Str) (page : Page) → message_html S message (some []) page ≡ fault null_pointer
  unfolding message_html
  message_html-null message page = refl

  message_text-ne_nil : (message : Str) (errors : Option Str) → message_text message errors ≢ []
  unfolding message_text
  message_text-ne_nil message none = append-ne_nil message [] b'\n'
  message_text-ne_nil message (some errors) =
      take-ne_nil _ _ (omega arith) (append-ne_nil message _ b'\n')

  pub page_new_with_message_lem :
      (level : LogLevel) (code : ℕ) (message : Str) (request : Request) (p : Program S.World)
      (format_str : Str)
      → is_status code ≡ true
      → IsPrintable p.error_buffer
      → redstore_log level p ≡ ok p
      → message_format S request ≡ ok (some format_str)
      → page_new_with_message S level code message request p
        ≡ ok (
          some (message_response (is_html_format format_str) code message p.error_buffer),
          request,
          p,
        )
  unfolding page_new_with_message
  page_new_with_message_lem level code message request p format_str h printable quiet e =
      elim (Bool-cases (is_html_format format_str)) [
        | inl html ↦
            rw (e, html, page_new-status code h)
              (rw (message_html-with_body message p.error_buffer (begun code _) printable)
                (rw (page_end-filled code _ (message_body message p.error_buffer), quiet) refl))
        | inr text ↦
            rw (e, text, response_new_with_type-typed code _ _ h)
              (rw
                (
                  set_content-filled code (codes "text/plain") _
                      (message_text-ne_nil message p.error_buffer),
                  quiet,
                )
                refl)
      ]
