-- ===== src/Url/Tests.antt =====
-- Runs of src/redhttp/url.c, and the theorems on it at concrete texts.
use redstore.Base.{
  ◌⊎◌, ◌≤◌, ◌++◌, fault, bad_read, ℕ, ◌≡◌, refl, [], ◌∷◌, arith, All, bad_read, ok, fault, Str,
  codes,
}
use redstore.Url.{url_unescape, url_escape}
use redstore.Url.RoundTrip.{IsAscii, IsEscaped, url_unescape-url_escape}
use redstore.Url.Bounds.{url_escape-overread}

escape_test : url_escape (codes "foo bar&1~") ≡ ok (codes "foo%20bar%261~")
unfolding url_escape
escape_test = refl

unescape_test : url_unescape (codes "a+b%2fc%zz%4") ≡ codes "a b/c%zz%4"
unfolding url_unescape
unescape_test = refl

escape_fault : url_escape (0xc3 ∷ 0xa9 ∷ []) ≡ fault bad_read
unfolding url_escape
escape_fault = refl

url_unescape-url_escape_example :
    (t : Str) × (url_escape (codes "a b&c") ≡ ok t)
    × All IsEscaped t
    × (url_unescape t ≡ codes "a b&c")
url_unescape-url_escape_example = url_unescape-url_escape (codes "a b&c") (omega arith)

url_escape-overread_example :
    ((t : Str) × (url_escape (b'a' ∷ 0xc3 ∷ []) ≡ ok t) × IsAscii (b'a' ∷ 0xc3 ∷ []))
    ⊎ ((before rest : Str) × (c : ℕ) × (b'a' ∷ 0xc3 ∷ [] ≡ before ++ c ∷ rest)
        × IsAscii before
        × (128 ≤ c)
        × (url_escape (b'a' ∷ 0xc3 ∷ []) ≡ fault bad_read))
url_escape-overread_example = url_escape-overread (b'a' ∷ 0xc3 ∷ [])
