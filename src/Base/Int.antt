-- ===== src/Base/Int.antt =====
-- Signed integers, and the text of a number as printf and atoi know it.
use Prim.Native.Nat.{ℕ, zero, suc, ◌+◌, ◌-◌, ◌*◌, ◌/◌, ◌%◌}
use mathlib.Core.Bool.{Bool, true, false}
use mathlib.Core.List.{[], ◌∷◌}
use redstore.Base.Tests.{ltb, if◌then◌else◌}
use redstore.Base.Text.{Str, isdigit}

-- `negsuc n` is -(n + 1).
pub data ℤ : Type 0 where
  pos : ℕ → ℤ
  negsuc : ℕ → ℤ

abbrev pub is_negative : ℤ → Bool
is_negative (pos n) = false
is_negative (negsuc n) = true

-- The digits of a number in front of a text: `%d`. The fuel `n + 1` is enough.
unfoldable pub digits_from : ℕ → ℕ → Str → Str
digits_from zero n rest = rest
digits_from (suc fuel) n rest =
    let more = digits_from fuel (n / 10) ((b'0' + n % 10) ∷ rest) in
    if ltb n 10 then (b'0' + n) ∷ rest else more

unfoldable pub decimal : ℕ → Str
unfolding digits_from
decimal n = digits_from (suc n) n []

-- The digits that strtol reads, after what it has read.
unfoldable pub read_digits : ℕ → Str → ℕ
unfolding isdigit
read_digits n [] = n
read_digits n (c ∷ s) =
    let rest = read_digits (n * 10 + (c - b'0')) s in if isdigit c then rest else n
