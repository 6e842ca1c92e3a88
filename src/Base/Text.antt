-- ===== src/Base/Text.antt =====
-- C strings as lists of bytes, and the functions of <string.h> and <ctype.h> in the C locale.
use Prim.Native.Nat.{ℕ, zero, suc, ◌+◌, ◌-◌, ◌<◌}
use Prim.Native.Char.{code}
use Prim.Native.String.{String}
use mathlib.Core.Path.{◌≡◌, refl, ap}
use mathlib.Core.Logic.{◌↔◌, ◌≢◌}
use mathlib.Core.Bool.{Bool, true, false, ◌&&◌, ◌||◌}
use mathlib.Core.Option.{Option, none, some}
use mathlib.Core.Option
use mathlib.Core.List.{List, [], ◌∷◌}
use native.Mathlib.Omega.{arith}
use redstore.Base.Tests.{leb, ◌==◌, if◌then◌else◌}
use redstore.Base.Lists.{length, All}

-- The bytes before the terminator.
abbrev pub Str : Type 0
Str = List ℕ

-- The bytes of an ASCII literal.
abbrev pub codes : String → Str
codes String.[] = []
codes (String.◌∷◌ c s) = code c ∷ codes s

-- What a C string function sees of a buffer: the bytes before the first NUL.
unfoldable pub cstr : List ℕ → Str
cstr [] = []
cstr (c ∷ s) = if c == 0 then [] else c ∷ cstr s

abbrev pub NoNul : List ℕ → Type 0
NoNul s = All (λ c. c ≢ 0) s

pub cstr_of_NoNul : (s : List ℕ) → NoNul s → cstr s ≡ s
unfolding cstr
cstr_of_NoNul [] _ = refl
cstr_of_NoNul (c ∷ s) (p, h) = ground (arith, cstr_of_NoNul s h)

-- strcmp(a, b) == 0
unfoldable pub str_eq : Str → Str → Bool
str_eq [] [] = true
str_eq (c ∷ s) (d ∷ t) = c == d && str_eq s t
str_eq _ _ = false

pub str_eq_iff : (s t : Str) → (str_eq s t ≡ true) ↔ (s ≡ t)
unfolding str_eq
str_eq_iff [] [] = ground arith
str_eq_iff [] (d ∷ t) = ground arith
str_eq_iff (c ∷ s) [] = ground arith
str_eq_iff (c ∷ s) (d ∷ t) = ground (arith, str_eq_iff s t)

str_eq_refl : (s : Str) → str_eq s s ≡ true
str_eq_refl s = (str_eq_iff s s).1 refl

-- strncmp(a, b, n) == 0
unfoldable pub strn_eq : ℕ → Str → Str → Bool
strn_eq zero s t = true
strn_eq (suc n) [] [] = true
strn_eq (suc n) (c ∷ s) (d ∷ t) = c == d && strn_eq n s t
strn_eq (suc n) _ _ = false

pub str_ne : (s t : Str) → str_eq s t ≡ false → s ≢ t
str_ne s t h = ground (arith, str_eq_iff s t)

-- strncmp by more bytes than the first string has is strcmp.
pub strn_eq-str_eq : (n : ℕ) (s t : Str) → length s < n → strn_eq n s t ≡ str_eq s t
unfolding strn_eq str_eq
strn_eq-str_eq zero s t h = absurd (omega arith)
strn_eq-str_eq (suc n) [] [] h = refl
strn_eq-str_eq (suc n) [] (d ∷ t) h = refl
strn_eq-str_eq (suc n) (c ∷ s) [] h = refl
strn_eq-str_eq (suc n) (c ∷ s) (d ∷ t) h =
    ap (λ b. c == d && b) (strn_eq-str_eq n s t (omega arith))

-- The index that strchr finds.
unfoldable pub strchr : ℕ → Str → Option ℕ
strchr c [] = none
strchr c (d ∷ s) = if d == c then some 0 else Option.map suc (strchr c s)

unfoldable pub isspace : ℕ → Bool
isspace c = c == b' ' || (leb 9 c && leb c 13)

unfoldable pub islower : ℕ → Bool
islower c = leb b'a' c && leb c b'z'

unfoldable pub isupper : ℕ → Bool
isupper c = leb b'A' c && leb c b'Z'

unfoldable pub isalpha : ℕ → Bool
unfolding islower isupper
isalpha c = islower c || isupper c

unfoldable pub isdigit : ℕ → Bool
isdigit c = leb b'0' c && leb c b'9'

unfoldable pub toupper : ℕ → ℕ
unfolding islower
toupper c = if islower c then c - 32 else c

unfoldable pub tolower : ℕ → ℕ
unfolding isupper
tolower c = if isupper c then c + 32 else c

-- The tail of a string from the first byte that fails the test.
unfoldable pub skip_while : (ℕ → Bool) → Str → Str
skip_while p [] = []
skip_while p (c ∷ s) = if p c then skip_while p s else c ∷ s

unfoldable pub take_while : (ℕ → Bool) → Str → Str
take_while p [] = []
take_while p (c ∷ s) = if p c then c ∷ take_while p s else []

-- The text with the white space at its end dropped, from the last byte backwards.
unfoldable pub trim_right : Str → Str
trim_right [] = []
trim_right (c ∷ s) = elim (trim_right s) [
  | [] ↦ if isspace c then [] else c ∷ []
  | d ∷ t ↦ c ∷ d ∷ t
]
