-- ===== src/GenId.antt =====
-- src/genid.c: identifiers for new graphs.
mod Tests
use redstore.Base.{
  ℕ, zero, suc, ◌+◌, ◌-◌, ◌/◌, ◌%◌, ◌^◌, ◌<◌, ◌≡◌, refl, sym, ap, ◌∙◌, ◌≢◌, inl, inr, true, some,
  [], ◌∷◌, ◌++◌, arith, ltb, ◌==◌, if◌then◌else◌, Bool-cases, length, get_elem?, Str,
}

-- REDSTORE_ID_LEN
abbrev id_length : ℕ
id_length = 9

-- `chars[index]`, for an index below 16
unfoldable hex_char : ℕ → ℕ
hex_char index = if ltb index 10 then b'0' + index else b'a' + (index - 10)

-- The dash after the fourth character, and the next value of `i`.
abbrev dash : ℕ → Str
dash i = if i == 3 then b'-' ∷ [] else []

abbrev next_i : ℕ → ℕ
next_i i = if i == 3 then i + 2 else i + 1

-- `(index + i + remainder) % base`
abbrev next_index : ℕ → ℕ → ℕ → ℕ
next_index index i quotient = (index + i + quotient % 16) % 16

-- The loop over `i`; its fuel is at least the number of rounds.
unfoldable genid_loop : ℕ → ℕ → ℕ → ℕ → Str
unfolding hex_char
genid_loop zero i quotient index = []
genid_loop (suc fuel) i quotient index =
    let index' = next_index index i quotient in
    let rest = genid_loop fuel (next_i i) (quotient / 16) index' in
    if ltb i id_length then hex_char index' ∷ (dash i ++ rest) else []

unfoldable pub id_of : ℕ → Str
unfolding genid_loop
id_of base_id = genid_loop id_length 0 base_id 0

-- `base_id`, after the first call has taken it from `random()`
abbrev seeded : ℕ → ℕ → ℕ
seeded random base_id = if base_id == 0 then random else base_id

-- The identifier and the next `base_id`, an `unsigned long`.
unfoldable pub genid : ℕ → ℕ → Str × ℕ
unfolding id_of
genid random base_id = (id_of (seeded random base_id), (seeded random base_id + 1) % 2 ^ 64)

-- Distinct identifiers -----------------------------------------------------------------------------

-- Numbers with the same last hex digits.
abbrev SameDigits : ℕ → ℕ → ℕ → Type 0
SameDigits zero a b = Unit
SameDigits (suc n) a b = (a % 16 ≡ b % 16) × SameDigits n (a / 16) (b / 16)

rounds : ℕ → ℕ → ℕ
rounds zero i = 0
rounds (suc fuel) i = let more = suc (rounds fuel (next_i i)) in if ltb i id_length then more else 0

hex_char-injective : (a b : ℕ) → a < 16 → b < 16 → hex_char a ≡ hex_char b → a ≡ b
unfolding hex_char
hex_char-injective a b h k e = ground arith

-- The index gives the digit back, since the index before it is known.
digit_of_index : (index i a b : ℕ) → next_index index i a ≡ next_index index i b → a % 16 ≡ b % 16
digit_of_index index i a b h = omega arith

tail_after_dash : (i : ℕ) (s t : Str) → dash i ++ s ≡ dash i ++ t → s ≡ t
tail_after_dash i s t e = ground arith

genid_loop-step :
    (fuel i quotient index : ℕ)
    → ltb i id_length ≡ true
    → genid_loop (suc fuel) i quotient index
      ≡ hex_char (next_index index i quotient)
        ∷ (dash i ++ genid_loop fuel (next_i i) (quotient / 16) (next_index index i quotient))
unfolding genid_loop
genid_loop-step fuel i quotient index h = rw h

cons-parts : {a b : ℕ} {s t : Str} → a ∷ s ≡ b ∷ t → (a ≡ b) × (s ≡ t)
cons-parts e = (cc, cc)

-- The same text for two numbers, from the same index, means the same digits.
genid_loop-SameDigits :
    (fuel i a b index : ℕ)
    → genid_loop fuel i a index ≡ genid_loop fuel i b index
    → SameDigits (rounds fuel i) a b
unfolding rounds
genid_loop-SameDigits zero i a b index e = tt
genid_loop-SameDigits (suc fuel) i a b index e = elim (Bool-cases (ltb i id_length)) [
  | inl more ↦
      let (first, rest) =
        cons-parts
          (sym (genid_loop-step fuel i a index more) ∙ e ∙ genid_loop-step fuel i b index more) in
      let same =
        hex_char-injective (next_index index i a) (next_index index i b) (omega arith) (omega arith)
          first in
      rw more (
        digit_of_index index i a b same,
        genid_loop-SameDigits fuel (next_i i) (a / 16) (b / 16) (next_index index i a)
            (tail_after_dash i _ _ rest ∙ ap (genid_loop fuel (next_i i) (b / 16)) (sym same)),
      )
  | inr done ↦ rw done tt
]

-- Distinct numbers below 2 ^ 32 have distinct identifiers.
id_of-injective : (a b : ℕ) → a < 2 ^ 32 → b < 2 ^ 32 → id_of a ≡ id_of b → a ≡ b
unfolding id_of rounds
id_of-injective a b h k e = let same = genid_loop-SameDigits id_length 0 a b 0 e in omega arith

-- `base_id` after a number of calls, and the identifier that the next call gives.
base_after : ℕ → ℕ → ℕ → ℕ
base_after random base_id zero = base_id
base_after random base_id (suc n) = (genid random (base_after random base_id n)).1

pub nth_id : ℕ → ℕ → ℕ → Str
nth_id random base_id n = (genid random (base_after random base_id n)).0

base_after_lem :
    (random base_id n : ℕ)
    → base_id ≢ 0
    → base_id + n < 2 ^ 32
    → base_after random base_id n ≡ base_id + n
unfolding base_after genid
base_after_lem random base_id zero h k = omega arith
base_after_lem random base_id (suc n) h k = ground (arith, base_after_lem random base_id n h)

nth_id_lem :
    (random base_id n : ℕ)
    → base_id ≢ 0
    → base_id + n < 2 ^ 32
    → nth_id random base_id n ≡ id_of (base_id + n)
unfolding nth_id genid
nth_id_lem random base_id n h k = rw (base_after_lem random base_id n h k) (ap id_of (ground arith))

-- As long as the counter, which is not 0, stays below 2 ^ 32, two different calls give different identifiers.
pub genid_distinct :
    (random base_id m n : ℕ)
    → base_id ≢ 0
    → base_id + m < 2 ^ 32
    → base_id + n < 2 ^ 32
    → m ≢ n
    → nth_id random base_id m ≢ nth_id random base_id n
genid_distinct random base_id m n h km kn differ e = differ (
    omega (
      arith,
      id_of-injective (base_id + m) (base_id + n) km kn
          (sym (nth_id_lem random base_id m h km) ∙ e ∙ nth_id_lem random base_id n h kn),
    ))

-- The text of every identifier: nine characters, the fifth of them a dash.
length-id_of : (n : ℕ) → (length (id_of n) ≡ 9) × (get_elem? (id_of n) 4 ≡ some b'-')
unfolding id_of
length-id_of n = (refl, refl)

-- The identifiers after the first call are those of the next `base_id`.
base_after-suc :
    (random base_id n : ℕ)
    → base_after random base_id (suc n) ≡ base_after random (genid random base_id).1 n
unfolding base_after
base_after-suc random base_id zero = refl
base_after-suc random base_id (suc n) =
    ap (λ b. (genid random b).1) (base_after-suc random base_id n)

pub nth_id-zero : (random base_id : ℕ) → nth_id random base_id 0 ≡ (genid random base_id).0
unfolding nth_id base_after
nth_id-zero random base_id = refl

pub nth_id-suc :
    (random base_id n : ℕ)
    → nth_id random base_id (suc n) ≡ nth_id random (genid random base_id).1 n
unfolding nth_id
nth_id-suc random base_id n = ap (λ b. (genid random b).0) (base_after-suc random base_id n)
