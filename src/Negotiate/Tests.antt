-- ===== src/Negotiate/Tests.antt =====
-- Runs of src/redhttp/negotiate.c, and the theorems on it at concrete texts.
use redstore.Base.{
  ℕ, ◌+◌, ◌-◌, ◌*◌, ◌/◌, ◌≡◌, refl, Option, none, some, [], ◌∷◌, arith, leb, ◌==◌, if◌then◌else◌,
  ok, Str, codes, str_eq, isspace, trim_right, pos,
}
use redstore.Negotiate.{
  MediaType, compare_types, choose_client, choose_server, negotiate_choose, negotiate_add,
  negotiate_sort, negotiate_count, sort_pass, sort_loop, trim_start, negotiate_to_string, q_text,
}
use redstore.Negotiate.Double.{Double, negotiate_round, parse_loop, negotiate_parse}
use redstore.Negotiate.Sort.{Descending, SameOrder, negotiate_sort_lem}
use redstore.Negotiate.Choose.{Scored, IsBest, negotiate_choose-IsBest}
use redstore.Negotiate.Parse.{Decides, types_from, RoundsToTenths, negotiate_parse-Decides}

-- Numbers in tenths, read in the form "0.5".
abbrev pub read_tenths : Str → Option ℕ
read_tenths [] = none
read_tenths (u ∷ []) = none
read_tenths (u ∷ point ∷ []) = none
read_tenths (u ∷ point ∷ d ∷ s) =
    if point == b'.' then some ((u - b'0') * 10 + (d - b'0')) else none

abbrev pub tenths : Double
tenths = record {
  D = ℕ;
  strtod = read_tenths;
  zero_d = 0;
  half = 5;
  one_d = 10;
  ten = 100;
  leq = leb;
  add = λ a b. a + b;
  subtract = λ a b. a - b;
  times = λ a b. a * b / 10;
  truncate = λ a. pos (a / 10);
}

tenths-round : RoundsToTenths tenths
unfolding negotiate_round
tenths-round d h k = ground arith

abbrev pub html : MediaType
html = record { type = codes "text/html"; q = 10 }

abbrev pub plain : MediaType
plain = record { type = codes "text/plain"; q = 5 }

pub parse_test :
    negotiate_parse tenths (some (codes "text/plain;q=0.5, text/html")) ≡ ok (html ∷ plain ∷ [])
unfolding negotiate_parse parse_loop negotiate_add trim_start trim_right negotiate_sort
    negotiate_count sort_loop sort_pass isspace
parse_test = refl

choose_test :
    negotiate_choose (plain ∷ html ∷ []) (record { type = codes "*/*"; q = 10 } ∷ [])
    ≡ some (codes "text/html")
unfolding negotiate_choose choose_server choose_client compare_types str_eq
choose_test = refl

string_test : negotiate_to_string (html ∷ plain ∷ []) ≡ codes "text/html,text/plain;q=0.5"
unfolding negotiate_to_string q_text
string_test = refl

negotiate_sort_lem_example :
    Descending (negotiate_sort (plain ∷ html ∷ []))
    × SameOrder (negotiate_sort (plain ∷ html ∷ [])) (plain ∷ html ∷ [])
negotiate_sort_lem_example = negotiate_sort_lem (plain ∷ html ∷ [])

negotiate_choose-IsBest_example :
    (n : ℕ) × Scored (plain ∷ html ∷ []) (html ∷ plain ∷ []) n (codes "text/html")
    × IsBest (plain ∷ html ∷ []) (html ∷ plain ∷ []) n
unfolding negotiate_choose choose_server choose_client compare_types str_eq
negotiate_choose-IsBest_example =
    negotiate_choose-IsBest (plain ∷ html ∷ []) (html ∷ plain ∷ []) (codes "text/html")
      (omega arith) refl

negotiate_parse-Decides_example :
    Decides (types_from [] (codes "a, ,b")) (negotiate_parse tenths (some (codes "a, ,b")))
negotiate_parse-Decides_example =
    negotiate_parse-Decides tenths (codes "a, ,b") tenths-round (λ e. cc)
