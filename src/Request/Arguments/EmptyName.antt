-- ===== src/Request/Arguments/EmptyName.antt =====
-- An argument without a name, in `redhttp_request_parse_arguments` of src/redhttp/request.c.
use redstore.Base.{
  ℕ, suc, ◌≡◌, refl, ◌∙◌, ◌≢◌, ◌⊎◌, inl, inr, false, Option, none, some, [], ◌∷◌, arith, ◌==◌,
  if_false, length, assertion, fault, Str, cstr, strchr,
}
use mathlib.Core.Option
use redstore.Headers.{Headers, headers_add}
use redstore.Url.{url_unescape}
use redstore.Request.Arguments.{
  value_sign, separator, key_text, value_text, unescaped, parse_arguments,
}
use redstore.Request.Arguments.Fields.{strchr-at, loop-step}

empty_key :
    (arguments : Headers) (value : Option Str)
    → headers_add arguments (cstr (url_unescape [])) value ≡ fault assertion
unfolding headers_add url_unescape cstr
empty_key arguments value = refl

-- The first round fails if its key is empty.
parse_arguments-empty_key :
    (arguments : Headers) (ptr : Str) (equals end : Option ℕ)
    → ptr ≢ []
    → value_sign (strchr b'=' ptr) (strchr b'&' ptr) (strchr b';' ptr) ≡ equals
    → separator (strchr b'&' ptr) (strchr b';' ptr) ≡ end
    → key_text ptr equals end ≡ []
    → parse_arguments arguments (some ptr) ≡ fault assertion
unfolding parse_arguments
parse_arguments-empty_key arguments ptr equals end n h k key =
    loop-step (length ptr) arguments ptr equals end n h k [] _ _ key refl refl
    ∙ rw (empty_key arguments (unescaped (value_text ptr equals end))) refl

strchr-other : (c d : ℕ) (s : Str) → d == c ≡ false → strchr c (d ∷ s) ≡ Option.map suc (strchr c s)
unfolding strchr
strchr-other c d s h = if_false _ _ _ h

-- A sign at the start comes before each other.
no_value-amp : (o semi : Option ℕ) → value_sign (Option.map suc o) (some 0) semi ≡ none
no_value-amp none semi = refl
no_value-amp (some j) semi = ground arith

no_value-semi : (o amp : Option ℕ) → value_sign (Option.map suc o) amp (some 0) ≡ none
no_value-semi none amp = refl
no_value-semi (some j) none = ground arith
no_value-semi (some j) (some k) = ground arith

first-equals : (o p : Option ℕ) → value_sign (some 0) (Option.map suc o) (Option.map suc p) ≡ some 0
first-equals none none = refl
first-equals none (some k) = ground arith
first-equals (some j) none = ground arith
first-equals (some j) (some k) = ground arith

first-amp : (o : Option ℕ) → separator (some 0) (Option.map suc o) ≡ some 0
first-amp none = refl
first-amp (some j) = ground arith

first-semi : (o : Option ℕ) → separator (Option.map suc o) (some 0) ≡ some 0
first-semi none = refl
first-semi (some j) = ground arith

-- A text whose first argument has no name, since it begins with one of the three signs, fails: the
-- assertion in `headers_add` stops the program.
pub parse_arguments-empty_name :
    (arguments : Headers) (c : ℕ) (s : Str)
    → (c ≡ b'&') ⊎ ((c ≡ b';') ⊎ (c ≡ b'='))
    → parse_arguments arguments (some (c ∷ s)) ≡ fault assertion
parse_arguments-empty_name arguments c s (inl e) =
    let amp = strchr-at b'&' [] s tt in
    let semi = strchr-other b';' b'&' s refl in
    let equals = strchr-other b'=' b'&' s refl in
    rw e (
      parse_arguments-empty_key arguments (b'&' ∷ s) none (some 0) (λ n. cc n)
        (rw amp (rw semi (rw equals (no_value-amp (strchr b'=' s) _))))
        (rw amp (rw semi (first-amp (strchr b';' s)))) refl)
parse_arguments-empty_name arguments c s (inr (inl e)) =
    let semi = strchr-at b';' [] s tt in
    let amp = strchr-other b'&' b';' s refl in
    let equals = strchr-other b'=' b';' s refl in
    rw e (
      parse_arguments-empty_key arguments (b';' ∷ s) none (some 0) (λ n. cc n)
        (rw amp (rw semi (rw equals (no_value-semi (strchr b'=' s) _))))
        (rw amp (rw semi (first-semi (strchr b'&' s)))) refl)
parse_arguments-empty_name arguments c s (inr (inr e)) =
    let equals = strchr-at b'=' [] s tt in
    let amp = strchr-other b'&' b'=' s refl in
    let semi = strchr-other b';' b'=' s refl in
    rw e (
      parse_arguments-empty_key arguments (b'=' ∷ s) (some 0)
        (separator (strchr b'&' (b'=' ∷ s)) (strchr b';' (b'=' ∷ s))) (λ n. cc n)
        (rw amp (rw semi (rw equals (first-equals (strchr b'&' s) (strchr b';' s))))) refl refl)
