-- ===== src/Base/Outcome.antt =====
-- The outcome of C code that may break a rule of the language: an assertion that fails, a read or
-- a write outside an object, a null or freed pointer that is used, an `int` that overflows; or that leaves the program by `exit`.
use mathlib.Core.Path.{◌≡◌, refl}
use mathlib.Core.Bool.{Bool, true, false}

pub data Fault : Type 0 where
  assertion bad_read bad_write null_pointer freed_pointer int_overflow process_exit : Fault

pub data Result {ℓ} (A : Type ℓ) : Type ℓ where
  ok : A → Result A
  fault : Fault → Result A

infixl 5 ◌>>=◌ ◌>>◌
abbrev pub ◌>>=◌ {ℓ κ} : {U : Type ℓ} {V : Type κ} → Result U → (U → Result V) → Result V
fault broken >>= next = fault broken
ok u >>= next = next u

abbrev pub ◌>>◌ {ℓ κ} : {U : Type ℓ} {V : Type κ} → Result U → Result V → Result V
first >> then_result = first >>= λ _. then_result

-- assert(b)
abbrev pub assert : Bool → Result (Unit {0})
assert true = ok tt
assert false = fault assertion

-- A chain that ends well has a first part that ends well.
pub >>=-eq-ok {ℓ κ} :
    {U : Type ℓ} {V : Type κ} (first : Result U) (next : U → Result V) {v : V}
    → first >>= next ≡ ok v
    → (u : U) × (first ≡ ok u) × (next u ≡ ok v)
>>=-eq-ok (fault broken) next whole = cc
>>=-eq-ok (ok u) next whole = (u, refl, whole)

pub ok-injective {ℓ} : {A : Type ℓ} {a b : A} → ok a ≡ ok b → a ≡ b
ok-injective e = cc
