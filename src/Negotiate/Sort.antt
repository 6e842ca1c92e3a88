-- ===== src/Negotiate/Sort.antt =====
-- The sort of src/redhttp/negotiate.c: descending, and stable.
use redstore.Base.{
  ℕ, zero, suc, ◌-◌, ◌≤◌, ◌≡◌, refl, ◌∙◌, inl, inr, List, [], ◌∷◌, arith, ltb, ◌==◌, if◌then◌else◌,
  Bool-cases, drop, All,
}
use redstore.Negotiate.{MediaType, negotiate_count, sort_pass, sort_loop, negotiate_sort}

abbrev pub AtMost : ℕ → List MediaType → Type 0
AtMost x l = All (λ m. m.q ≤ x) l

-- Each entry is followed only by entries of at most its quality.
abbrev pub Descending : List MediaType → Type 0
Descending [] = Unit
Descending (m ∷ l) = AtMost m.q l × Descending l

-- The entries of one quality, in their order.
unfoldable pub with_q : ℕ → List MediaType → List MediaType
with_q x [] = []
with_q x (m ∷ l) = if m.q == x then m ∷ with_q x l else with_q x l

-- The same entries; those of equal quality in the same order.
abbrev pub SameOrder : List MediaType → List MediaType → Type 0
SameOrder l l' = (x : ℕ) → with_q x l ≡ with_q x l'

-- What a pass keeps: from index `n` on the list is descending, and no entry before is smaller.
abbrev Settled : ℕ → List MediaType → Type 0
Settled zero l = Descending l
Settled (suc n) [] = Unit
Settled (suc n) (m ∷ l) = AtMost m.q (drop n l) × Settled n l

Settled-nil : (n : ℕ) → Settled n []
Settled-nil zero = tt
Settled-nil (suc n) = tt

drop-nil : (n : ℕ) (x : ℕ) → AtMost x (drop n [])
drop-nil zero x = tt
drop-nil (suc n) x = tt

AtMost-weaken : (l : List MediaType) (x y : ℕ) → x ≤ y → AtMost x l → AtMost y l
AtMost-weaken [] x y h _ = tt
AtMost-weaken (m ∷ l) x y h (p, k) = (omega arith, AtMost-weaken l x y h k)

-- The tail that a pass settles is bounded by what bounds the carried node and the old tail.
drop-sort_pass :
    (n : ℕ) (a : MediaType) (l : List MediaType) (x : ℕ)
    → a.q ≤ x
    → AtMost x (drop n l)
    → AtMost x (drop n (sort_pass n (a ∷ l)))
unfolding sort_pass
drop-sort_pass zero a l x p h = (p, h)
drop-sort_pass (suc n) a [] x p h = drop-nil n x
drop-sort_pass (suc n) a (b ∷ l) x p h = elim (Bool-cases (ltb a.q b.q)) [
  | inl less ↦ rw less (drop-sort_pass n a l x p h)
  | inr more ↦ rw more (drop-sort_pass n b l x (ground arith) h)
]

sort_pass-Settled :
    (n : ℕ) (a : MediaType) (l : List MediaType)
    → Settled (suc n) (a ∷ l)
    → Settled n (sort_pass n (a ∷ l))
unfolding sort_pass
sort_pass-Settled zero a l h = h
sort_pass-Settled (suc n) a [] h = (drop-nil n a.q, Settled-nil n)
sort_pass-Settled (suc n) a (b ∷ l) (ha, (hb, h)) = elim (Bool-cases (ltb a.q b.q)) [
  | inl less ↦ rw less (drop-sort_pass n a l b.q (ground arith) hb, sort_pass-Settled n a l (ha, h))
  | inr more ↦ rw more (drop-sort_pass n b l a.q (ground arith) ha, sort_pass-Settled n b l (hb, h))
]

sort_loop-Descending : (n : ℕ) (l : List MediaType) → Settled (suc n) l → Descending (sort_loop n l)
unfolding sort_loop
sort_loop-Descending zero [] h = tt
sort_loop-Descending zero (a ∷ l) h = h
sort_loop-Descending (suc n) [] h =
    sort_loop-Descending n _ (unfold sort_pass in Settled-nil (suc n))
sort_loop-Descending (suc n) (a ∷ l) h = sort_loop-Descending n _ (sort_pass-Settled (suc n) a l h)

drop-all : (n : ℕ) (l : List MediaType) (x : ℕ) → negotiate_count l ≤ n → AtMost x (drop n l)
unfolding negotiate_count
drop-all zero [] x h = tt
drop-all zero (a ∷ l) x h = absurd (omega arith)
drop-all (suc n) [] x h = tt
drop-all (suc n) (a ∷ l) x h = drop-all n l x (omega arith)

Settled-all : (n : ℕ) (l : List MediaType) → negotiate_count l ≤ n → Settled n l
unfolding negotiate_count
Settled-all zero [] h = tt
Settled-all zero (a ∷ l) h = absurd (omega arith)
Settled-all (suc n) [] h = tt
Settled-all (suc n) (a ∷ l) h = (drop-all n l a.q (omega arith), Settled-all n l (omega arith))

with_q-sort_pass : (n : ℕ) (l : List MediaType) → SameOrder (sort_pass n l) l
unfolding sort_pass with_q
with_q-sort_pass zero l x = refl
with_q-sort_pass (suc n) [] x = refl
with_q-sort_pass (suc n) (a ∷ []) x = refl
with_q-sort_pass (suc n) (a ∷ b ∷ l) x =
    ground (arith, with_q-sort_pass n (a ∷ l) x, with_q-sort_pass n (b ∷ l) x)

with_q-sort_loop : (n : ℕ) (l : List MediaType) → SameOrder (sort_loop n l) l
unfolding sort_loop
with_q-sort_loop zero l x = refl
with_q-sort_loop (suc n) l x = with_q-sort_loop n _ x ∙ with_q-sort_pass (suc n) l x

-- The sort puts the qualities in descending order, keeps every entry, and keeps the order of the
-- entries of equal quality.
pub negotiate_sort_lem :
    (l : List MediaType) → Descending (negotiate_sort l) × SameOrder (negotiate_sort l) l
unfolding negotiate_sort
negotiate_sort_lem l = (
  sort_loop-Descending _ l (Settled-all (suc (negotiate_count l - 1)) l (omega arith)),
  with_q-sort_loop _ l,
)

-- What holds of every entry holds after the sort.
module _ (P : MediaType → Type 0) where
  All-sort_pass : (n : ℕ) (l : List MediaType) → All P l → All P (sort_pass n l)
  unfolding sort_pass
  All-sort_pass zero l h = h
  All-sort_pass (suc n) [] h = h
  All-sort_pass (suc n) (a ∷ []) h = h
  All-sort_pass (suc n) (a ∷ b ∷ l) (p, (q, h)) = elim (Bool-cases (ltb a.q b.q)) [
    | inl less ↦ rw less (q, All-sort_pass n (a ∷ l) (p, h))
    | inr more ↦ rw more (p, All-sort_pass n (b ∷ l) (q, h))
  ]

  All-sort_loop : (n : ℕ) (l : List MediaType) → All P l → All P (sort_loop n l)
  unfolding sort_loop
  All-sort_loop zero l h = h
  All-sort_loop (suc n) l h = All-sort_loop n (sort_pass (suc n) l) (All-sort_pass (suc n) l h)

  pub All-negotiate_sort : (l : List MediaType) → All P l → All P (negotiate_sort l)
  unfolding negotiate_sort
  All-negotiate_sort l h = All-sort_loop (negotiate_count l - 1) l h
