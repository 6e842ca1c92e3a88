-- ===== src/Negotiate/Parse/Blank.antt =====
-- Which texts `redhttp_negotiate_parse` accepts (src/redhttp/negotiate.c).
use redstore.Base.{
  ℕ, zero, suc, ◌+◌, ◌-◌, ◌≤◌, ◌≡◌, refl, sym, ap, ◌∙◌, ◌≢◌, ◌⊎◌, inl, inr, Bool, true, false, ◌&&◌,
  some, List, [], ◌∷◌, ◌++◌, append_assoc, arith, ltb, ◌==◌, if◌then◌else◌, Bool-cases,
  Option-cases, length, drop, length-append, take-append_length, assertion, bad_read, Result, ok,
  fault, ◌>>=◌, Str, isspace, skip_while, trim_right, ℤ, pos, negsuc,
}
use redstore.Negotiate.{MediaType, trim_start, in_tenths, negotiate_sort, negotiate_add}
use redstore.Negotiate.Double.{
  Double, negotiate_round, read_q, q_at, scan_q, params_length, add_segment, parse_loop,
  negotiate_parse,
}

abbrev pub blank : Str → Bool
blank [] = true
blank (c ∷ s) = isspace c && blank s

-- The part of a segment before its parameters.
abbrev pub before_semicolon : Str → Str
before_semicolon [] = []
before_semicolon (c ∷ s) = if c == b';' then [] else c ∷ before_semicolon s

-- The types that a text lists between its commas, after the first bytes of a segment.
abbrev pub types_from : Str → Str → List Str
types_from seg [] = before_semicolon seg ∷ []
types_from seg (c ∷ s) =
    let closed = before_semicolon seg ∷ types_from [] s in
    let longer = types_from (seg ++ c ∷ []) s in if c == b',' then closed else longer

-- What the types of the segments decide, one after another.
abbrev pub Decides : List Str → Result (List MediaType) → Type 0
Decides [] r = (l : List MediaType) × (r ≡ ok l)
Decides (t ∷ types) r =
    ((blank t ≡ false) × Decides types r)
    ⊎ (((t ≡ []) × (r ≡ fault assertion)) ⊎ ((t ≢ []) × (blank t ≡ true) × (r ≡ fault bad_read)))

trim_start_of_blank :
    (t more : Str) → blank t ≡ true → trim_start (t ++ more) (length t) ≡ fault bad_read
unfolding trim_start
trim_start_of_blank [] more h = refl
trim_start_of_blank (c ∷ t) more h = ground (arith, trim_start_of_blank t more)

trim_start_of_text :
    (t more : Str)
    → blank t ≡ false
    → trim_start (t ++ more) (length t)
      ≡ ok (skip_while isspace t ++ more, length (skip_while isspace t))
unfolding trim_start skip_while
trim_start_of_text [] more h = cc
trim_start_of_text (c ∷ t) more h = ground (arith, trim_start_of_text t more)

-- How an addition ends, for the bytes `t` of a longer text: with a fault if they are blank, and else
-- with the trimmed type in its place.
pub negotiate_add_lem :
    (first : List MediaType) (t more : Str) (q : ℕ)
    → q ≤ 10
    → negotiate_add first (t ++ more) (length t) (pos q) ≡ (
        if blank t
        then (if ltb 0 (length t) then fault bad_read else fault assertion)
        else ok (
            negotiate_sort
              (first ++ record { type = trim_right (skip_while isspace t); q = q } ∷ [])))
unfolding negotiate_add
negotiate_add_lem first [] more q h = refl
negotiate_add_lem first (c ∷ t) more q h = elim (Bool-cases (blank (c ∷ t))) [
  | inl white ↦ ground (arith, trim_start_of_blank (c ∷ t) more)
  | inr text ↦
      ground (
        arith,
        trim_start_of_text (c ∷ t) more,
        take-append_length (skip_while isspace (c ∷ t)) more,
      )
]

params_length_lem :
    (F : Double) (seg s : Str)
    → params_length F (length seg) (seg ++ s) ≡ length (before_semicolon seg)
unfolding params_length
params_length_lem F [] s = refl
params_length_lem F (c ∷ seg) s = ground (arith, params_length_lem F seg s)

before_semicolon_rest : (seg : Str) → (more : Str) × (seg ≡ before_semicolon seg ++ more)
before_semicolon_rest [] = ([], refl)
before_semicolon_rest (c ∷ seg) =
    let (more, e) = before_semicolon_rest seg in
    elim (Bool-cases (c == b';')) [
      | inl semi ↦ (c ∷ seg, rw semi)
      | inr other ↦ (more, rw (other, ← e))
    ]

-- What the documentation of the floating-point operations gives: rounding ten times a number between
-- 0 and 1 gives 0 to 10.
abbrev pub RoundsToTenths : Double → Type 0
RoundsToTenths F =
    (d : F.D)
    → F.leq F.zero_d d ≡ true
    → F.leq d F.one_d ≡ true
    → in_tenths (negotiate_round F (F.times d F.ten)) ≡ true

in_tenths_pos : (q : ℤ) → in_tenths q ≡ true → (n : ℕ) × (q ≡ pos n) × (n ≤ 10)
in_tenths_pos (pos n) h = (n, refl, ground arith)
in_tenths_pos (negsuc n) h = cc

-- How an addition of a type ends: an empty type fails the assertion, one of white space is read
-- past its end, and another gives a longer list.
abbrev Ends : Result (List MediaType) → Str → Type 0
Ends r t =
    ((t ≡ []) × (r ≡ fault assertion))
    ⊎ (((t ≢ []) × (blank t ≡ true) × (r ≡ fault bad_read))
        ⊎ ((l : List MediaType) × (r ≡ ok l) × (blank t ≡ false)))

negotiate_add-Ends :
    (first : List MediaType) (t more str : Str) (len : ℕ) (q : ℤ)
    → str ≡ t ++ more
    → len ≡ length t
    → in_tenths q ≡ true
    → Ends (negotiate_add first str len q) t
negotiate_add-Ends first [] more str len q es el h =
    let (n, eq, le) = in_tenths_pos q h in
    inl (refl, rw (es, el, eq) (negotiate_add_lem first [] more n le))
negotiate_add-Ends first (c ∷ t) more str len q es el h =
    let (n, eq, le) = in_tenths_pos q h in
    let at = negotiate_add_lem first (c ∷ t) more n le in
    rw (es, el, eq, at)
      elim (Bool-cases (blank (c ∷ t))) [
        | inl white ↦ inr (inl (λ e. cc e, white, rw white (ground arith)))
        | inr text ↦ inr (
            inr (
              negotiate_sort
                  (first ++ record { type = trim_right (skip_while isspace (c ∷ t)); q = n } ∷ []),
              rw text refl,
              text,
            ))
      ]

module _ (F : Double) (rounds : RoundsToTenths F) where
  read_q-in_tenths : (p : Str) (q : ℤ) → in_tenths q ≡ true → in_tenths (read_q F p q) ≡ true
  unfolding read_q
  read_q-in_tenths p q h = elim (Option-cases (F.strtod p)) [
    | inl nothing ↦ rw (nothing, read_q) h
    | inr (d, found) ↦ ground (arith, found, rounds d)
  ]

  q_at-in_tenths : (c : ℕ) (p : Str) (q : ℤ) → in_tenths q ≡ true → in_tenths (q_at F c p q) ≡ true
  unfolding q_at
  q_at-in_tenths c [] q h = h
  q_at-in_tenths c (d ∷ p) q h = ground (arith, read_q-in_tenths p q h)

  scan_q-in_tenths :
      (n : ℕ) (p : Str) (q : ℤ) → in_tenths q ≡ true → in_tenths (scan_q F n p q) ≡ true
  unfolding scan_q
  scan_q-in_tenths zero p q h = h
  scan_q-in_tenths (suc n) [] q h = h
  scan_q-in_tenths (suc n) (c ∷ p) q h = scan_q-in_tenths n p _ (q_at-in_tenths c p q h)

  add_segment-Ends :
      (seg s start : Str) (n : ℕ) (first : List MediaType)
      → start ≡ seg ++ s
      → n ≡ length seg
      → Ends (add_segment F start n first) (before_semicolon seg)
  unfolding add_segment
  add_segment-Ends seg s start n first es en =
      let (more, e) = before_semicolon_rest seg in
      let type_len = params_length F n start in
      negotiate_add-Ends first (before_semicolon seg) (more ++ s) start type_len
        (scan_q F (n - 3 - type_len) (drop type_len start) (pos 10))
        (es ∙ ap (λ x. x ++ s) e ∙ append_assoc (before_semicolon seg) more s)
        (rw (es, en) (params_length_lem F seg s))
        (scan_q-in_tenths (n - 3 - type_len) (drop type_len start) (pos 10) refl)

  parse_loop-comma :
      (start ptr : Str) (n c : ℕ) (first : List MediaType)
      → (c == b',') ≡ true
      → parse_loop F start n (c ∷ ptr) first
        ≡ (add_segment F start n first >>= parse_loop F ptr 0 ptr)
  unfolding parse_loop
  parse_loop-comma start ptr n c first h = rw h

  parse_loop-other :
      (start ptr : Str) (n c : ℕ) (first : List MediaType)
      → (c == b',') ≡ false
      → parse_loop F start n (c ∷ ptr) first ≡ parse_loop F start (n + 1) ptr first
  unfolding parse_loop
  parse_loop-other start ptr n c first h = rw h

  parse_loop-Decides :
      (seg s start : Str) (n : ℕ) (first : List MediaType)
      → start ≡ seg ++ s
      → n ≡ length seg
      → Decides (types_from seg s) (parse_loop F start n s first)
  parse_loop-Decides seg [] start n first es en =
      elim (add_segment-Ends seg [] start n first es en) [
        | inl (empty, e) ↦ unfold parse_loop in inr (inl (empty, e))
        | inr (inl (some_bytes, white, e)) ↦ unfold parse_loop in inr (inr (some_bytes, white, e))
        | inr (inr (l, e, text)) ↦ unfold parse_loop in inl (text, (l, e))
      ]
  parse_loop-Decides seg (c ∷ s) start n first es en = elim (Bool-cases (c == b',')) [
    | inl comma ↦
        let step = parse_loop-comma start s n c first comma in
        elim (add_segment-Ends seg (c ∷ s) start n first es en) [
          | inl (empty, e) ↦ rw (step, comma, e) (inr (inl (empty, refl)))
          | inr (inl (some_bytes, white, e)) ↦
              rw (step, comma, e) (inr (inr (some_bytes, white, refl)))
          | inr (inr (l, e, text)) ↦
              rw (step, comma, e) (inl (text, parse_loop-Decides [] s s 0 l refl refl))
        ]
    | inr other ↦
        let ih =
          parse_loop-Decides (seg ++ c ∷ []) s start (n + 1) first
            (es ∙ sym (append_assoc seg (c ∷ []) s))
            (omega (arith, en, length-append seg (c ∷ []))) in
        rw (parse_loop-other start s n c first other, other) ih
  ]

-- The first segment without a type decides how a text is parsed: an empty one stops the program by an
-- assertion, one of white space makes it read outside of the text; without such a segment the
-- text is accepted. Rounding is taken to give tenths, and the text is not empty.
pub negotiate_parse-Decides :
    (F : Double) (s : Str)
    → RoundsToTenths F
    → s ≢ []
    → Decides (types_from [] s) (negotiate_parse F (some s))
unfolding negotiate_parse
negotiate_parse-Decides F [] rounds h = absurd (h refl)
negotiate_parse-Decides F (c ∷ s) rounds h =
    parse_loop-Decides F rounds [] (c ∷ s) (c ∷ s) 0 [] refl refl
