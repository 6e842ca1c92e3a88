-- ===== src/Url/Bounds.antt =====
-- When src/redhttp/url.c stays inside its buffers.
use redstore.Base.{
  ℕ, ◌≤◌, ◌<◌, ◌≡◌, refl, ap, ◌⊎◌, inl, inr, List, [], ◌∷◌, ◌++◌, ltb, ltb→lt, Bool-cases, arith,
  if◌then◌else◌, length, length-append, bad_read, ok, fault, >>=-eq-ok, Str,
}
use redstore.Url.{url_unescape, isurlsafe, escape_byte, encoded_length, url_escape}
use redstore.Url.RoundTrip.{IsAscii, url_unescape-url_escape}

escape_byte-signed : (c : ℕ) → 128 ≤ c → escape_byte c ≡ fault bad_read
unfolding escape_byte
escape_byte-signed c h = ground arith

-- Escaping a text of ASCII bytes succeeds; escaping any other text reads outside of the table of
-- digits, at its first byte from 128 up.
pub url_escape-overread :
    (s : Str)
    → ((t : Str) × (url_escape s ≡ ok t) × IsAscii s)
      ⊎ ((before rest : Str) × (c : ℕ) × (s ≡ before ++ c ∷ rest)
          × IsAscii before
          × (128 ≤ c)
          × (url_escape s ≡ fault bad_read))
unfolding url_escape
url_escape-overread [] = inl ([], refl, tt)
url_escape-overread (c ∷ s) = elim (Bool-cases (ltb c 128)) [
  | inr high ↦
      let signed : 128 ≤ c = ground arith in
      inr ([], s, c, refl, tt, signed, rw (escape_byte-signed c signed) refl)
  | inl low ↦
      let ascii : c < 128 = ltb→lt c 128 low in
      let (one, e1, _, _) = url_unescape-url_escape (c ∷ []) (ascii, tt) in
      let (out, eo, _) = >>=-eq-ok (escape_byte c) _ e1 in
      elim (url_escape-overread s) [
        | inl (rest, e, h) ↦ inl (out ++ rest, rw (eo, e) refl, (ascii, h))
        | inr (before, rest, d, split, h, signed, e) ↦
            inr (c ∷ before, rest, d, ap (λ l. c ∷ l) split, (ascii, h), signed, rw (eo, e) refl)
      ]
]

escape_byte-length :
    (c : ℕ) (out : List ℕ) → escape_byte c ≡ ok out → length out ≡ (if isurlsafe c then 1 else 3)
unfolding escape_byte
escape_byte-length c out h = ground arith

-- A successful escape has the length that phase 1 allocates.
length-url_escape : (s t : Str) → url_escape s ≡ ok t → length t ≡ encoded_length s
unfolding url_escape encoded_length
length-url_escape [] t e = ground arith
length-url_escape (c ∷ s) t e =
    let (out, eo, e1) = >>=-eq-ok (escape_byte c) _ e in
    let (rest, er, e2) = >>=-eq-ok (url_escape s) _ e1 in
    ground (arith, escape_byte-length c out eo, length-url_escape s rest er, length-append out rest)

-- What is unescaped fits the buffer, which has the length of the input.
length-url_unescape : (s : Str) → length (url_unescape s) ≤ length s
unfolding url_unescape
length-url_unescape [] = omega arith
length-url_unescape (c ∷ []) = omega arith
length-url_unescape (c ∷ a ∷ []) = omega (arith, length-url_unescape (a ∷ []))
length-url_unescape (c ∷ a ∷ b ∷ s) =
    ground (arith, length-url_unescape s, length-url_unescape (a ∷ b ∷ s))
