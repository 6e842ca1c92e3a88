-- ===== src/Url/RoundTrip.antt =====
-- Escaping and unescaping a text (src/redhttp/url.c).
use redstore.Base.{
  ℕ, zero, suc, ◌/◌, ◌%◌, ◌<◌, ◌≡◌, refl, ap, ◌≢◌, ◌⊎◌, inl, inr, Bool, true, false, ◌&&◌, Option,
  none, some, List, [], ◌∷◌, ◌++◌, arith, ◌==◌, Bool-cases, All, All-append, Result, ok, fault, Str,
}
use redstore.Url.{hex_decode, hex_byte, url_unescape, isurlsafe, hex_at, escape_byte, url_escape}

-- The table of digits is checked as a whole.
holds_below : (ℕ → Bool) → ℕ → Bool
holds_below test zero = true
holds_below test (suc bound) = holds_below test bound && test bound

holds_below-at :
    (test : ℕ → Bool) (bound value : ℕ)
    → value < bound
    → holds_below test bound ≡ true
    → test value ≡ true
unfolding holds_below
holds_below-at test zero value small table = absurd (omega arith)
holds_below-at test (suc bound) value small table =
    let earlier = holds_below-at test bound value in ground (arith, earlier)

is_value : Option ℕ → ℕ → Bool
is_value none n = false
is_value (some v) n = v == n

digit_decodes : Result ℕ → ℕ → Bool
unfolding is_value
digit_decodes (fault e) n = false
digit_decodes (ok d) n = is_value (hex_decode d) n

digit_of_test :
    (r : Result ℕ) (n : ℕ)
    → digit_decodes r n ≡ true
    → (d : ℕ) × (r ≡ ok d) × (hex_decode d ≡ some n)
unfolding digit_decodes
digit_of_test (fault e) n h = cc
digit_of_test (ok d) n h = (d, refl, ground arith)

digit_table : holds_below (λ n. digit_decodes (hex_at (some n)) n) 16 ≡ true
unfolding holds_below digit_decodes hex_at hex_decode
digit_table = refl

hex_at_lem : (n : ℕ) → n < 16 → (d : ℕ) × (hex_at (some n) ≡ ok d) × (hex_decode d ≡ some n)
hex_at_lem n h = digit_of_test _ n (holds_below-at _ 16 n h digit_table)

-- A byte that a round trip keeps: ASCII.
abbrev pub IsAscii : Str → Type 0
IsAscii s = All (λ c. c < 128) s

safe-plain : (c : ℕ) → isurlsafe c ≡ true → (c ≢ b'%') × (c ≢ b'+') × (c < 128)
unfolding isurlsafe
safe-plain c h = ground arith

unescape-plain : (c : ℕ) (s : Str) → c ≢ b'%' → c ≢ b'+' → url_unescape (c ∷ s) ≡ c ∷ url_unescape s
unfolding url_unescape
unescape-plain c [] p q = ground arith
unescape-plain c (a ∷ []) p q = ground arith
unescape-plain c (a ∷ b ∷ s) p q = ground arith

unescape-percent :
    (a b v : ℕ) (s : Str)
    → hex_byte (hex_decode a) (hex_decode b) ≡ some v
    → url_unescape (b'%' ∷ a ∷ b ∷ s) ≡ v ∷ url_unescape s
unfolding url_unescape
unescape-percent a b v s h = rw h

-- The bytes that an escape is made of.
abbrev pub IsEscaped : ℕ → Type 0
IsEscaped d = (isurlsafe d ≡ true) ⊎ (d ≡ b'%')

hex_digit-safe : (d n : ℕ) → hex_decode d ≡ some n → isurlsafe d ≡ true
unfolding hex_decode isurlsafe
hex_digit-safe d n h = ground arith

-- What the escape of a byte is made of, and how it reads back.
escape_byte_ascii :
    (c : ℕ)
    → c < 128
    → (out : List ℕ) × (escape_byte c ≡ ok out)
      × All IsEscaped out
      × ((s : Str) → url_unescape (out ++ s) ≡ c ∷ url_unescape s)
unfolding escape_byte
escape_byte_ascii c h = elim (Bool-cases (isurlsafe c)) [
  | inl safe ↦
      let (p, q, _) = safe-plain c safe in
      (c ∷ [], rw safe, (inl safe, tt), λ s. unescape-plain c s p q)
  | inr unsafe ↦
      let (a, ea, da) = hex_at_lem (c / 16) (omega arith) in
      let (b, eb, db) = hex_at_lem (c % 16) (omega arith) in
      (
        b'%' ∷ a ∷ b ∷ [],
        ground (arith, ea, eb),
        (inr refl, (inl (hex_digit-safe a _ da), (inl (hex_digit-safe b _ db), tt))),
        λ s. unescape-percent a b c s (rw (da, db) (ap some (omega arith))),
      )
]

-- Escaping an ASCII text succeeds, with unreserved bytes and percent signs only, and unescaping the
-- escape gives the text back.
pub url_unescape-url_escape :
    (s : Str)
    → IsAscii s
    → (t : Str) × (url_escape s ≡ ok t) × All IsEscaped t × (url_unescape t ≡ s)
unfolding url_escape
url_unescape-url_escape [] _ = ([], refl, tt, unfold url_unescape in refl)
url_unescape-url_escape (c ∷ s) (p, h) =
    let (out, e, escaped, back) = escape_byte_ascii c p in
    let (t, es, more, et) = url_unescape-url_escape s h in
    (out ++ t, rw (e, es), All-append IsEscaped out t escaped more, rw (back t, et))
