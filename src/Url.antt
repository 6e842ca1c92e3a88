-- ===== src/Url.antt =====
-- src/redhttp/url.c: percent escapes. `char` is signed, as with gcc on x86: a byte from 128 up is
-- negative as an `int`, and the index `c >> 4` that `url_escape` makes of it lies before `hex`.
pub mod RoundTrip
pub mod Bounds
mod Tests
use redstore.Base.{
  ℕ, ◌+◌, ◌-◌, ◌*◌, ◌/◌, ◌%◌, Bool, true, false, ◌&&◌, ◌||◌, Option, none, some, List, [], ◌∷◌,
  ◌++◌, ltb, leb, ◌==◌, if◌then◌else◌, get_elem?, bad_read, Result, ok, fault, ◌>>=◌, ◌>>◌, Str,
  codes, strchr, isdigit,
}

-- `none` is the result -1.
unfoldable pub hex_decode : ℕ → Option ℕ
unfolding isdigit
hex_decode ch =
    if isdigit ch
    then some (ch - b'0')
    else if leb b'A' ch && leb ch b'F'
    then some (ch - b'A' + 0xa)
    else if leb b'a' ch && leb ch b'f'
    then some (ch - b'a' + 0xa)
    else none

-- The byte that two hex digits stand for.
abbrev hex_byte : Option ℕ → Option ℕ → Option ℕ
hex_byte (some ch1) (some ch2) = some (ch1 * 16 + ch2)
hex_byte _ _ = none

abbrev unescape_plain : ℕ → ℕ
unescape_plain c = if c == b'+' then b' ' else c

-- The buffer before the terminator. It holds a NUL where the text has "%00", and is then read by
-- the callers through `cstr`.
unfoldable pub url_unescape : Str → List ℕ
unfolding hex_decode
url_unescape [] = []
url_unescape (c ∷ []) = unescape_plain c ∷ []
url_unescape (c ∷ a ∷ []) = unescape_plain c ∷ url_unescape (a ∷ [])
url_unescape (c ∷ a ∷ b ∷ s) =
    let decoded = url_unescape s in
    let next = url_unescape (a ∷ b ∷ s) in
    if c == b'%'
    then elim (hex_byte (hex_decode a) (hex_decode b)) [ some v ↦ v ∷ decoded | none ↦ c ∷ next ]
    else unescape_plain c ∷ next

abbrev is_some : Option ℕ → Bool
is_some (some i) = true
is_some none = false

unfoldable pub isurlsafe : ℕ → Bool
unfolding strchr
isurlsafe c =
    (leb b'a' c && leb c b'z')
    || (leb b'A' c && leb c b'Z')
    || (leb b'0' c && leb c b'9')
    || is_some (strchr c (codes "-._~"))

-- `hex[i]`; `none` is a negative index.
unfoldable pub hex_at : Option ℕ → Result ℕ
hex_at none = fault bad_read
hex_at (some i) = elim (get_elem? (codes "0123456789ABCDEF") i) [
  | some d ↦ ok d
  | none ↦ fault bad_read
]

-- `c >> 4` of a byte that was read as a signed `char`
abbrev high_index : ℕ → Option ℕ
high_index c = if ltb c 128 then some (c / 16) else none

unfoldable pub escape_byte : ℕ → Result (List ℕ)
unfolding isurlsafe hex_at
escape_byte c =
    if isurlsafe c
    then ok (c ∷ [])
    else do high ← hex_at (high_index c); low ← hex_at (some (c % 16)); ok (b'%' ∷ high ∷ low ∷ [])

-- Phase 1 of `url_escape`: the length that is allocated, without the terminator.
unfoldable pub encoded_length : Str → ℕ
unfolding isurlsafe
encoded_length [] = 0
encoded_length (c ∷ s) = (if isurlsafe c then 1 else 3) + encoded_length s

-- Phase 2.
unfoldable pub url_escape : Str → Result Str
unfolding escape_byte
url_escape [] = ok []
url_escape (c ∷ s) = do out ← escape_byte c; rest ← url_escape s; ok (out ++ rest)
