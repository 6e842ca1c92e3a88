-- ===== src/Format/Tests.antt =====
-- A run of src/utils.c, and the theorem on the choice of a format for a concrete request.
use redstore.Base.{◌≡◌, refl, true, none, some, [], ◌∷◌, ok, Str, codes, str_eq, tolower}
use mathlib.Core.List.{Memᴰ}
use redstore.Headers.{headers_get}
use redstore.Negotiate.{compare_types}
use redstore.Negotiate.Tests.{tenths, html, plain, parse_test}
use redstore.Request.{Request, request_new}
use redstore.Format.{Description, negotiate_format, is_html_format}
use redstore.Format.Choice.{IsChosen, negotiate_format-IsChosen}

is_html_test : is_html_format (codes "text/html") ≡ true
unfolding is_html_format str_eq
is_html_test = refl

-- A format with the type text/plain.
abbrev text_format : Description
text_format = record {
  names = codes "text" ∷ [];
  label = none;
  uri_strings = none;
  mime_types = plain ∷ [];
}

abbrev accepting : Request
accepting = record (request_new (record { input = []; eof = true; output = [] })) {
  headers =
      record { key = codes "Accept"; value = some (codes "text/plain;q=0.5, text/html") } ∷ [];
}

negotiate_format-IsChosen_example :
    (best : Description) × (mime : Str) × (negotiate_format tenths accepting (text_format ∷ []) none
      ≡ ok (some (best, some mime)))
    × IsChosen (text_format ∷ []) (html ∷ plain ∷ []) 25 best mime
unfolding headers_get tolower compare_types str_eq
negotiate_format-IsChosen_example =
    negotiate_format-IsChosen tenths accepting (text_format ∷ []) none
      (codes "text/plain;q=0.5, text/html") (html ∷ plain ∷ []) text_format plain plain refl refl
      refl parse_test (Memᴰ.head refl) (Memᴰ.head refl) (Memᴰ.tail (Memᴰ.head refl)) refl
