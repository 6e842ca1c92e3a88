-- ===== src/Headers/Lines.antt =====
-- Reading a header line, printing one, and the numbering of headers (src/redhttp/headers.c).
use redstore.Base.{
  ℕ, zero, suc, ◌+◌, ◌≤◌, ◌≡◌, refl, ◌≢◌, ◌↔◌, inl, inr, true, false, none, some, [], ◌∷◌, ◌++◌,
  arith, ◌==◌, if◌then◌else◌, Bool-cases, get_elem?, All, assertion, ok, fault, Str, isspace,
  skip_while,
}
use redstore.Headers.{
  Headers, stored, non_empty, headers_add, headers_count, get_index_from, headers_get_index,
  split_colon, headers_parse_line,
}

-- The numbering -----------------------------------------------------------------------------------

get_index_from_lem : (hs : Headers) (i n : ℕ) → get_index_from i hs (i + n) ≡ get_elem? hs n
unfolding get_index_from
get_index_from_lem [] i n = refl
get_index_from_lem (it ∷ next) i zero = ground arith
get_index_from_lem (it ∷ next) i (suc n) = ground (arith, get_index_from_lem next (i + 1) n)

get_elem?-none : (hs : Headers) (n : ℕ) → (get_elem? hs n ≡ none) ↔ (headers_count hs ≤ n)
unfolding headers_count
get_elem?-none [] n = ground arith
get_elem?-none (it ∷ next) zero = ground arith
get_elem?-none (it ∷ next) (suc n) = ground (arith, get_elem?-none next n)

-- The counting loop finds the header at the index, and nothing exactly from the count on.
headers_get_index_lem :
    (hs : Headers) (n : ℕ)
    → (headers_get_index hs n ≡ get_elem? hs n)
      × ((headers_get_index hs n ≡ none) ↔ (headers_count hs ≤ n))
unfolding headers_get_index
headers_get_index_lem hs n =
    let found = get_index_from_lem hs 0 n in ground (arith, found, get_elem?-none hs n)

-- The lines ---------------------------------------------------------------------------------------

-- A key that a line can carry.
abbrev pub IsKey : Str → Type 0
IsKey k = (k ≢ []) × All (λ c. c ≢ b':') k

-- A value that a line can carry: it does not begin with white space.
abbrev pub IsValue : Str → Type 0
IsValue [] = ⊥
IsValue (c ∷ v) = isspace c ≡ false

split_colon-append : (k v : Str) → All (λ c. c ≢ b':') k → split_colon (k ++ b':' ∷ v) ≡ some (k, v)
unfolding split_colon
split_colon-append [] v _ = refl
split_colon-append (c ∷ k) v (p, h) = ground (arith, split_colon-append k v h)

-- A line "key: value" adds that header.
pub parse_line-printed :
    (hs : Headers) (k v : Str)
    → IsKey k
    → IsValue v
    → headers_parse_line hs (k ++ b':' ∷ b' ' ∷ v)
      ≡ ok (hs ++ record { key = k; value = some v } ∷ [])
unfolding headers_parse_line headers_add skip_while
parse_line-printed hs [] v p q = absurd (p.0 refl)
parse_line-printed hs (c ∷ k) [] p q = elim q [ ]
parse_line-printed hs (c ∷ k) (d ∷ v) p q =
    rw (split_colon-append (c ∷ k) (b' ' ∷ d ∷ v) p.1, headers_parse_line)
      (unfold stored isspace in rw q)

parse_line-other :
    (hs : Headers) (c : ℕ) (s : Str) → c ≢ b':' → headers_parse_line hs (c ∷ s) ≢ fault assertion
unfolding headers_parse_line split_colon headers_add
parse_line-other hs c s h = ground arith

parse_line-colon :
    (hs : Headers) (s : Str)
    → headers_parse_line hs (b':' ∷ s)
      ≡ (if non_empty (skip_while isspace s) then fault assertion else ok hs)
unfolding headers_parse_line split_colon headers_add
parse_line-colon hs s = refl

non_empty_iff : (s : Str) → (non_empty s ≡ true) ↔ (s ≢ [])
non_empty_iff [] = ground arith
non_empty_iff (c ∷ s) = ground arith

-- A line fails exactly when it begins with a colon and has a value: the key is then empty, and the
-- assertion in `headers_add` stops the program.
parse_line-fault_iff :
    (hs : Headers) (line : Str)
    → (headers_parse_line hs line ≡ fault assertion)
      ↔ ((value : Str) × (line ≡ b':' ∷ value) × (skip_while isspace value ≢ []))
parse_line-fault_iff hs [] = (λ e. unfold headers_parse_line split_colon in cc, λ (v, e, _). cc)
parse_line-fault_iff hs (c ∷ s) = elim (Bool-cases (c == b':')) [
  | inl colon ↦
      let at = parse_line-colon hs s in
      let blank = non_empty_iff (skip_while isspace s) in
      (λ e. (s, ground arith, ground (arith, at, blank)), λ (v, e, full). ground (arith, at, blank))
  | inr other ↦
      (λ e. absurd (parse_line-other hs c s (ground arith) e), λ (v, e, _). absurd (ground arith))
]
