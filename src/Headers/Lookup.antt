-- ===== src/Headers/Lookup.antt =====
-- What a header table answers after an addition or a change (src/redhttp/headers.c).
use redstore.Base.{
  ◌+◌, ◌≡◌, refl, ◌≢◌, ◌↔◌, inl, inr, true, false, Option, none, some, [], ◌∷◌, ◌++◌, map, arith,
  if◌then◌else◌, Bool-cases, Option-cases, ok, Str, tolower,
}
use redstore.Headers.{
  Header, Headers, strcasecmp_eq, stored, headers_add, replace_value, headers_set, headers_count,
  headers_get, headers_exists,
}

-- Two keys are the same for `strcasecmp` when they agree in lower case.
strcasecmp_eq_iff : (s t : Str) → (strcasecmp_eq s t ≡ true) ↔ (map tolower s ≡ map tolower t)
unfolding strcasecmp_eq
strcasecmp_eq_iff [] [] = ground arith
strcasecmp_eq_iff [] (d ∷ t) = ground arith
strcasecmp_eq_iff (c ∷ s) [] = ground arith
strcasecmp_eq_iff (c ∷ s) (d ∷ t) = ground (arith, strcasecmp_eq_iff s t)

strcasecmp_eq_refl : (s : Str) → strcasecmp_eq s s ≡ true
strcasecmp_eq_refl s = (strcasecmp_eq_iff s s).1 refl

-- Equal keys are interchangeable in a comparison.
same_key : (j k x : Str) → strcasecmp_eq k x ≡ true → strcasecmp_eq j x ≡ strcasecmp_eq k j
same_key j k x h =
    ground (arith, strcasecmp_eq_iff k x, strcasecmp_eq_iff j x, strcasecmp_eq_iff k j)

same_keys : (j k x : Str) → strcasecmp_eq k j ≡ true → strcasecmp_eq j x ≡ strcasecmp_eq k x
same_keys j k x h =
    ground (arith, strcasecmp_eq_iff k j, strcasecmp_eq_iff j x, strcasecmp_eq_iff k x)

headers_get-append_one :
    (hs : Headers) (h : Header) (j : Str)
    → headers_get (hs ++ h ∷ []) j ≡ (
        if headers_exists hs j
        then headers_get hs j
        else if strcasecmp_eq j h.key
        then h.value
        else none)
unfolding headers_get headers_exists
headers_get-append_one [] h j = refl
headers_get-append_one (it ∷ next) h j = ground (arith, headers_get-append_one next h j)

get-replace_value :
    (hs hs' : Headers) (k j : Str) (v : Option Str)
    → replace_value hs k v ≡ some hs'
    → headers_get hs' j ≡ (if strcasecmp_eq k j then stored v else headers_get hs j)
unfolding replace_value headers_get
get-replace_value [] hs' k j v e = ground arith
get-replace_value (it ∷ next) hs' k j v e = elim (Option-cases (replace_value next k v)) [
  | inl missing ↦ ground (arith, same_key j k it.key, same_keys j k it.key)
  | inr (changed, found) ↦
      ground (
        arith,
        same_key j k it.key,
        same_keys j k it.key,
        get-replace_value next changed k j v found,
      )
]

replace_value-none :
    (hs : Headers) (k : Str) (v : Option Str)
    → headers_exists hs k ≡ false
    → replace_value hs k v ≡ none
unfolding replace_value headers_exists
replace_value-none [] k v e = refl
replace_value-none (it ∷ next) k v e = ground (arith, replace_value-none next k v)

-- An addition answers for its key only if no earlier header has that key.
headers_get-headers_add :
    (hs hs' : Headers) (k j : Str) (v : Option Str)
    → headers_add hs k v ≡ ok hs'
    → headers_get hs' j ≡ (
        if headers_exists hs j
        then headers_get hs j
        else if strcasecmp_eq j k
        then stored v
        else none)
unfolding headers_add
headers_get-headers_add hs hs' [] j v e = ground arith
headers_get-headers_add hs hs' (c ∷ k) j v e =
    ground (arith, headers_get-append_one hs (record { key = c ∷ k; value = stored v }) j)

exists-replace_value :
    (hs : Headers) (k : Str) (v : Option Str)
    → headers_exists hs k ≡ true
    → (hs' : Headers) × (replace_value hs k v ≡ some hs') × (headers_count hs' ≡ headers_count hs)
unfolding replace_value headers_exists headers_count
exists-replace_value [] k v h = cc
exists-replace_value (it ∷ next) k v h = elim (Bool-cases (strcasecmp_eq k it.key)) [
  | inl same ↦ (record it { value = stored v } ∷ next, rw same, refl)
  | inr other ↦
      let (changed, e, n) = exists-replace_value next k v (ground arith) in
      (it ∷ changed, rw (other, e), omega (arith, n))
]

count-append_one : (hs : Headers) (h : Header) → headers_count (hs ++ h ∷ []) ≡ headers_count hs + 1
unfolding headers_count
count-append_one [] h = refl
count-append_one (it ∷ next) h = omega (arith, count-append_one next h)

exists-same_keys :
    (hs : Headers) (j k : Str)
    → strcasecmp_eq k j ≡ true
    → headers_exists hs j ≡ headers_exists hs k
unfolding headers_exists
exists-same_keys [] j k h = refl
exists-same_keys (it ∷ next) j k h = rw (same_keys j k it.key h, exists-same_keys next j k h)

not_exists-get : (hs : Headers) (k : Str) → headers_exists hs k ≡ false → headers_get hs k ≡ none
unfolding headers_exists headers_get
not_exists-get [] k h = refl
not_exists-get (it ∷ next) k h = ground (arith, not_exists-get next k)

-- Setting a header, on each of its paths: the key then has the value, no other key changes, and the
-- table grows by one header only if it had none with the key.
headers_set_lem :
    (hs : Headers) (k : Str) (v : Option Str)
    → k ≢ []
    → (hs' : Headers) × (headers_set hs k v ≡ ok hs')
      × ((j : Str) → headers_get hs' j ≡ (if strcasecmp_eq k j then stored v else headers_get hs j))
      × (headers_count hs' ≡ headers_count hs + (if headers_exists hs k then 0 else 1))
unfolding headers_set headers_add
headers_set_lem hs [] v h = absurd (h refl)
headers_set_lem hs (c ∷ k) v h = elim (Bool-cases (headers_exists hs (c ∷ k))) [
  | inl old ↦
      let (changed, e, n) = exists-replace_value hs (c ∷ k) v old in
      (
        changed,
        rw (e, headers_set),
        λ j. get-replace_value hs changed (c ∷ k) j v e,
        rw old (omega (arith, n)),
      )
  | inr new ↦
      let added : Header = record { key = c ∷ k; value = stored v } in
      (
        hs ++ added ∷ [],
        rw (replace_value-none hs (c ∷ k) v new, headers_set),
        λ j. ground (
          arith,
          headers_get-append_one hs added j,
          strcasecmp_eq_iff (c ∷ k) j,
          strcasecmp_eq_iff j (c ∷ k),
          exists-same_keys hs j (c ∷ k),
          not_exists-get hs j,
        ),
        rw new (count-append_one hs added),
      )
]
