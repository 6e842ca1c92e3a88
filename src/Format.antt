-- ===== src/Format.antt =====
-- src/utils.c: the choice of a format for a response.
pub mod Choice
mod Tests
use redstore.Base.{
  ℕ, ◌*◌, Bool, true, false, ◌&&◌, ◌||◌, not, Option, none, some, List, [], ◌∷◌, ltb, if◌then◌else◌,
  Result, ok, ◌>>=◌, Str, codes, str_eq,
}
use redstore.Negotiate.{MediaType, compare_types, negotiate_choose}
use redstore.Negotiate.Double.{Double, negotiate_parse}
use redstore.Request.{Request, get_argument, get_header}

-- What is used of a raptor_syntax_description.
pub record Description : Type 0 where
  pub names : List Str
  pub label : Option Str
  pub uri_strings : Option (List Str)
  pub mime_types : List MediaType

abbrev has_name : List Str → Str → Bool
has_name [] format_name = false
has_name (name ∷ next) format_name = str_eq name format_name || has_name next format_name

abbrev find_name : List Description → Str → Option Description
find_name [] format_name = none
find_name (desc ∷ next) format_name =
    if has_name desc.names format_name then some desc else find_name next format_name

-- The descriptions are those that `desc_proc` enumerates.
unfoldable pub get_format_by_name : List Description → Option Str → Option Description
get_format_by_name descs none = none
get_format_by_name descs (some []) = none
get_format_by_name descs (some (c ∷ s)) = find_name descs (c ∷ s)

-- `best_score` with `chosen_desc` and `*chosen_mime`; `none` is -1 and NULL.
abbrev pub Chosen : Type 0
Chosen = Option (ℕ × Description × Str)

abbrev pub scores_more : ℕ → Chosen → Bool
scores_more score none = true
scores_more score (some (best_score, desc, mime)) = ltb best_score score

-- The loop over the accepted types, for one type of a description.
unfoldable pub choose_accept : Description → MediaType → List MediaType → Chosen → Chosen
choose_accept desc m [] best = best
choose_accept desc m (a ∷ next) best = choose_accept desc m next (
    if compare_types m.type a.type && scores_more (m.q * a.q) best
    then some (m.q * a.q, desc, m.type)
    else best)

unfoldable pub choose_mime : Description → List MediaType → List MediaType → Chosen → Chosen
choose_mime desc [] accept best = best
choose_mime desc (m ∷ next) accept best =
    choose_mime desc next accept (choose_accept desc m accept best)

unfoldable pub choose_desc : List Description → List MediaType → Chosen → Chosen
choose_desc [] accept best = best
choose_desc (desc ∷ next) accept best =
    choose_desc next accept (choose_mime desc desc.mime_types accept best)

-- `accept_str && accept_str[0] && strcmp("*/*", accept_str) != 0`
abbrev pub is_choice : Str → Bool
is_choice [] = false
is_choice (c ∷ s) = not (str_eq (codes "*/*") (c ∷ s))

abbrev pub Negotiated : Type 0
Negotiated = Option (Description × Option Str)

-- `desc->mime_types[0].mime_type`, if the description has types
abbrev first_mime : Description → Option Str
first_mime desc = elim desc.mime_types [ [] ↦ none | m ∷ next ↦ some m.type ]

abbrev by_name : List Description → Option Str → Negotiated
by_name descs format_name = elim (get_format_by_name descs format_name) [
  | none ↦ none
  | some desc ↦ some (desc, first_mime desc)
]

abbrev by_score : Chosen → Negotiated
by_score none = none
by_score (some (score, desc, mime)) = some (desc, some mime)

abbrev by_default : List Description → Option Str → Negotiated
by_default descs none = none
by_default descs (some default_format) = by_name descs (some default_format)

module _ (F : Double) where
  abbrev by_accept : List Description → Str → Result Negotiated
  by_accept descs accept_str = do
    accept ← negotiate_parse F (some accept_str)
    ok (by_score (choose_desc descs accept none))

  -- The branches on the "format" argument, the "Accept" header and the default.
  abbrev negotiate_branch :
      List Description → Option Str → Option Str → Option Str → Result Negotiated
  negotiate_branch descs (some format_arg) accept_str default_format =
      ok (by_name descs (some format_arg))
  negotiate_branch descs none none default_format = ok (by_default descs default_format)
  negotiate_branch descs none (some accept_str) default_format =
      if is_choice accept_str
      then by_accept descs accept_str
      else ok (by_default descs default_format)

  -- The description and `*chosen_mime`, for a caller that asks for the type.
  unfoldable pub negotiate_format : Request → List Description → Option Str → Result Negotiated
  negotiate_format request descs default_format =
      negotiate_branch descs (get_argument request (codes "format"))
        (get_header request (codes "Accept")) default_format

  abbrev string_branch : Option Str → Option Str → Str → Option Str → Result (Option Str)
  string_branch (some format_arg) accept_str supported_str default_format = ok (some format_arg)
  string_branch none none supported_str default_format = ok default_format
  string_branch none (some accept_str) supported_str default_format =
      if is_choice accept_str
      then (do
        accept ← negotiate_parse F (some accept_str)
        supported ← negotiate_parse F (some supported_str)
        ok (negotiate_choose supported accept))
      else ok default_format

  unfoldable pub negotiate_string : Request → Str → Option Str → Result (Option Str)
  negotiate_string request supported_str default_format =
      string_branch (get_argument request (codes "format")) (get_header request (codes "Accept"))
        supported_str default_format

unfoldable pub is_html_format : Str → Bool
is_html_format str =
    str_eq str (codes "html")
    || str_eq str (codes "text/html")
    || str_eq str (codes "application/xhtml+xml")

unfoldable pub is_text_format : Str → Bool
is_text_format str = str_eq str (codes "text") || str_eq str (codes "text/plain")

unfoldable is_nquads_format : Str → Bool
is_nquads_format str = str_eq str (codes "nquads") || str_eq str (codes "application/x-nquads")
