-- ===== src/Negotiate/Parse/Quality.antt =====
-- The qualities in what `redhttp_negotiate_parse` returns (src/redhttp/negotiate.c).
use redstore.Base.{
  ℕ, zero, suc, ◌+◌, ◌-◌, ◌≤◌, ◌<◌, ◌≡◌, refl, ap, ◌∙◌, ◌≢◌, inl, inr, Bool, true, false, Option,
  none, some, List, [], ◌∷◌, ◌++◌, arith, ltb, ◌==◌, Bool-cases, length, take, length-append,
  drop-append_length, All, All-append, ok, assert, >>=-eq-ok, ok-injective, Str, isspace, isdigit,
  skip_while, trim_right, ℤ, pos, negsuc,
}
use mathlib.Core.Path.{subst}
use native.Mathlib.Nat.{add-zero}
use redstore.Negotiate.{
  MediaType, trim_start, in_tenths, to_tenths, negotiate_sort, negotiate_add, negotiate_count,
  sort_loop,
}
use redstore.Negotiate.Double.{
  Double, scan_q, params_length, add_segment, parse_loop, negotiate_parse,
}
use redstore.Negotiate.Sort.{AtMost, Descending, negotiate_sort_lem, All-negotiate_sort}
use redstore.Negotiate.Parse.Blank.{negotiate_add_lem}

-- What a list of media types keeps.
abbrev pub IsRanked : List MediaType → Type 0
IsRanked l = Descending l × AtMost 10 l

to_tenths-le : (q : ℤ) → in_tenths q ≡ true → to_tenths q ≤ 10
to_tenths-le (pos q) h = ground arith
to_tenths-le (negsuc q) h = cc

checked : (b : Bool) {u : Unit {0}} → assert b ≡ ok u → b ≡ true
checked true h = refl
checked false h = cc

-- An addition keeps the list ranked, whatever the text is.
negotiate_add-IsRanked :
    (first l : List MediaType) (type : Str) (type_len : ℕ) (q : ℤ)
    → AtMost 10 first
    → negotiate_add first type type_len q ≡ ok l
    → IsRanked l
unfolding negotiate_add
negotiate_add-IsRanked first l type type_len q h e =
    let (u, eu, e1) = >>=-eq-ok (assert (ltb 0 type_len)) _ e in
    let (v, ev, e2) = >>=-eq-ok (assert (in_tenths q)) _ e1 in
    let ((start, len), er, e3) = >>=-eq-ok (trim_start type type_len) _ e2 in
    let new : MediaType = record { type = trim_right (take len start); q = to_tenths q } in
    let all =
      All-append (λ m. m.q ≤ 10) first (new ∷ []) h
        (to_tenths-le q (checked (in_tenths q) ev), tt) in
    subst IsRanked (ok-injective e3) (
      (negotiate_sort_lem (first ++ new ∷ [])).0,
      All-negotiate_sort (λ m. m.q ≤ 10) (first ++ new ∷ []) all,
    )

module _ (F : Double) where
  add_segment-IsRanked :
      (start : Str) (n : ℕ) (first l : List MediaType)
      → AtMost 10 first
      → add_segment F start n first ≡ ok l
      → IsRanked l
  unfolding add_segment
  add_segment-IsRanked start n first l h e = negotiate_add-IsRanked first l start _ _ h e

  parse_loop-IsRanked :
      (start ptr : Str) (n : ℕ) (first l : List MediaType)
      → AtMost 10 first
      → parse_loop F start n ptr first ≡ ok l
      → IsRanked l
  unfolding parse_loop
  parse_loop-IsRanked start [] n first l h e = add_segment-IsRanked start n first l h e
  parse_loop-IsRanked start (c ∷ ptr) n first l h e = elim (Bool-cases (c == b',')) [
    | inl comma ↦
        let (first', e1, e2) =
          >>=-eq-ok (add_segment F start n first) (parse_loop F ptr 0 ptr) (ground arith) in
        parse_loop-IsRanked ptr ptr 0 first' l (add_segment-IsRanked start n first first' h e1).1 e2
    | inr other ↦ parse_loop-IsRanked start ptr (n + 1) first l h (ground arith)
  ]

-- What a parse returns is in descending order of quality, with qualities of at most ten tenths,
-- whatever the text and whatever `strtod` reads.
negotiate_parse-IsRanked :
    (F : Double) (s : Option Str) (l : List MediaType) → negotiate_parse F s ≡ ok l → IsRanked l
unfolding negotiate_parse
negotiate_parse-IsRanked F none l e = subst IsRanked (ok-injective e) (tt, tt)
negotiate_parse-IsRanked F (some []) l e = subst IsRanked (ok-injective e) (tt, tt)
negotiate_parse-IsRanked F (some (c ∷ s)) l e = parse_loop-IsRanked F (c ∷ s) (c ∷ s) 0 [] l tt e

-- A quality of one digit is not read ------------------------------------------------------------------

-- A type with no separator and no white space at its ends.
abbrev pub IsPlainType : Str → Type 0
IsPlainType t = (t ≢ []) × All (λ c. (c ≢ b',') × (c ≢ b';') × (isspace c ≡ false)) t

module _ (F : Double) where
  parse_loop-no_comma :
      (start ptr : Str) (n : ℕ) (first : List MediaType)
      → All (λ c. c ≢ b',') ptr
      → parse_loop F start n ptr first ≡ add_segment F start (n + length ptr) first
  unfolding parse_loop
  parse_loop-no_comma start [] n first h = rw add-zero
  parse_loop-no_comma start (c ∷ ptr) n first (p, h) = elim (Bool-cases (c == b',')) [
    | inl comma ↦ absurd (ground arith)
    | inr other ↦ rw other (
        parse_loop-no_comma start ptr (n + 1) first h
        ∙ ap (λ m. add_segment F start m first) (omega arith))
  ]

  params_length-plain :
      (t more : Str) (n : ℕ)
      → All (λ c. (c ≢ b',') × (c ≢ b';') × (isspace c ≡ false)) t
      → length t < n
      → params_length F n (t ++ b';' ∷ more) ≡ length t
  unfolding params_length
  params_length-plain t more zero h k = absurd (omega arith)
  params_length-plain [] more (suc n) h k = refl
  params_length-plain (c ∷ t) more (suc n) (p, h) k = ground (arith, params_length-plain t more n h)

  scan_q-one_round : (d e f : ℕ) → scan_q F 1 (b';' ∷ d ∷ e ∷ f ∷ []) (pos 10) ≡ pos 10
  unfolding scan_q
  scan_q-one_round d e f = refl

trim_right-plain :
    (t : Str) → All (λ c. (c ≢ b',') × (c ≢ b';') × (isspace c ≡ false)) t → trim_right t ≡ t
unfolding trim_right
trim_right-plain [] h = refl
trim_right-plain (c ∷ []) (p, h) = rw (p.2)
trim_right-plain (c ∷ d ∷ t) (p, h) = rw (trim_right-plain (d ∷ t) h)

no_comma-plain :
    (t : Str) → All (λ c. (c ≢ b',') × (c ≢ b';') × (isspace c ≡ false)) t → All (λ c. c ≢ b',') t
no_comma-plain [] h = tt
no_comma-plain (c ∷ t) (p, h) = (p.0, no_comma-plain t h)

add_segment-one_digit :
    (F : Double) (t : Str) (d e f : ℕ)
    → All (λ c. (c ≢ b',') × (c ≢ b';') × (isspace c ≡ false)) t
    → add_segment F (t ++ b';' ∷ d ∷ e ∷ f ∷ []) (length t + 4) []
      ≡ negotiate_add [] (t ++ b';' ∷ d ∷ e ∷ f ∷ []) (length t) (pos 10)
unfolding add_segment
add_segment-one_digit F t d e f h =
    let rounds : length t + 4 - 3 - length t ≡ 1 = omega arith in
    rw (params_length-plain F t (d ∷ e ∷ f ∷ []) (length t + 4) h (omega arith), rounds)
      (rw (drop-append_length t (b';' ∷ d ∷ e ∷ f ∷ [])) (rw (scan_q-one_round F d e f)))

negotiate_add-plain :
    (t more : Str)
    → IsPlainType t
    → negotiate_add [] (t ++ more) (length t) (pos 10) ≡ ok (record { type = t; q = 10 } ∷ [])
unfolding skip_while negotiate_sort negotiate_count sort_loop
negotiate_add-plain [] more h = absurd (h.0 refl)
negotiate_add-plain (c ∷ t) more h =
    negotiate_add_lem [] (c ∷ t) more 10 (omega arith)
    ∙ rw (h.1.0.2) (rw (trim_right-plain (c ∷ t) h.1))

digit-ne-comma : (d : ℕ) → isdigit d ≡ true → d ≢ b','
unfolding isdigit
digit-ne-comma d h = ground arith

one_digit-no_comma :
    (digit : ℕ) → isdigit digit ≡ true → All (λ d. d ≢ b',') (b';' ∷ b'q' ∷ b'=' ∷ digit ∷ [])
one_digit-no_comma digit h =
    (omega arith, (omega arith, (omega arith, (digit-ne-comma digit h, tt))))

length-one_digit : (t : Str) (d e f g : ℕ) → 0 + length (t ++ d ∷ e ∷ f ∷ g ∷ []) ≡ length t + 4
length-one_digit t d e f g = omega (arith, length-append {0} t (d ∷ e ∷ f ∷ g ∷ []))

parse_loop-one_digit :
    (F : Double) (t : Str) (digit : ℕ)
    → IsPlainType t
    → isdigit digit ≡ true
    → (str : Str) → str ≡ t ++ b';' ∷ b'q' ∷ b'=' ∷ digit ∷ []
    → parse_loop F str 0 str [] ≡ ok (record { type = t; q = 10 } ∷ [])
parse_loop-one_digit F t digit h k str e =
    let plain =
      All-append (λ d. d ≢ b',') t (b';' ∷ b'q' ∷ b'=' ∷ digit ∷ []) (no_comma-plain t h.1)
        (one_digit-no_comma digit k) in
    parse_loop-no_comma F str str 0 [] (rw e plain)
    ∙ rw (e, length-one_digit t b';' b'q' b'=' digit)
        (add_segment-one_digit F t b'q' b'=' digit h.1 ∙ negotiate_add-plain t _ h)

-- A quality written with one digit, as in "text/html;q=0", is not read: the type counts in full.
one_digit_q-ignored :
    (F : Double) (t : Str) (digit : ℕ)
    → IsPlainType t
    → isdigit digit ≡ true
    → negotiate_parse F (some (t ++ b';' ∷ b'q' ∷ b'=' ∷ digit ∷ []))
      ≡ ok (record { type = t; q = 10 } ∷ [])
unfolding negotiate_parse
one_digit_q-ignored F [] digit h k = absurd (h.0 refl)
one_digit_q-ignored F (c ∷ t) digit h k = parse_loop-one_digit F (c ∷ t) digit h k _ refl
