-- ===== src/Negotiate/Format.antt =====
-- The text that src/redhttp/negotiate.c makes of a list of media types.
use redstore.Base.{
  ℕ, ◌/◌, ◌<◌, ◌≡◌, refl, List, [], ◌∷◌, ◌++◌, arith, ◌==◌, if◌then◌else◌, length, length-append,
  Str,
}
use redstore.Negotiate.{MediaType, q_text, string_length, not_last, negotiate_to_string}
use redstore.Negotiate.Sort.{AtMost}

length-q_text : (q : ℕ) → q < 10 → length (q_text q) ≡ 6
unfolding q_text
length-q_text q h = let whole : q / 10 ≡ 0 = omega arith in rw (whole, q_text)

-- The text has the length that is allocated for it, if no quality is above 1.0.
length-negotiate_to_string :
    (l : List MediaType) → AtMost 10 l → length (negotiate_to_string l) ≡ string_length l
unfolding string_length negotiate_to_string
length-negotiate_to_string [] h = refl
length-negotiate_to_string (it ∷ next) (p, h) =
    let rest = negotiate_to_string next in
    let separator : Str = if not_last next then b',' ∷ [] else [] in
    let quality : Str = if it.q == 10 then [] else q_text it.q in
    ground (
      arith,
      length-append it.type (quality ++ (separator ++ rest)),
      length-append quality (separator ++ rest),
      length-append separator rest,
      length-q_text it.q,
      length-negotiate_to_string next h,
    )
