-- ===== src/Request/Arguments/Fields.antt =====
-- One round of `redhttp_request_parse_arguments` of src/redhttp/request.c.
use redstore.Base.{
  ℕ, suc, ◌+◌, ◌-◌, ◌≡◌, refl, ap, ◌∙◌, ◌≢◌, Option, none, some, [], ◌∷◌, ◌++◌, append_assoc,
  append-nil, arith, length, take, drop, length-append, take-append_length, All, All-append, ◌>>=◌,
  Str, cstr, strchr,
}
use redstore.Headers.{Headers, headers_add}
use redstore.Url.{url_unescape}
use redstore.Request.Arguments.{
  value_sign, separator, key_text, value_text, next_ptr, unescaped, parse_arguments_loop,
}

-- The bytes of a text that are none of the three signs.
abbrev pub IsInert : ℕ → Type 0
IsInert c = (c ≢ b'&') × ((c ≢ b';') × (c ≢ b'='))

strchr-none : (c : ℕ) (s : Str) → All (λ d. d ≢ c) s → strchr c s ≡ none
unfolding strchr
strchr-none c [] h = refl
strchr-none c (d ∷ s) (p, h) = ground (arith, strchr-none c s h)

pub strchr-at : (c : ℕ) (s t : Str) → All (λ d. d ≢ c) s → strchr c (s ++ c ∷ t) ≡ some (length s)
unfolding strchr
strchr-at c [] t h = ground arith
strchr-at c (d ∷ s) t (p, h) = ground (arith, strchr-at c s t h)

inert-amp : (s : Str) → All IsInert s → All (λ d. d ≢ b'&') s
inert-amp [] h = tt
inert-amp (c ∷ s) ((p, _), h) = (p, inert-amp s h)

inert-semi : (s : Str) → All IsInert s → All (λ d. d ≢ b';') s
inert-semi [] h = tt
inert-semi (c ∷ s) ((_, (p, _)), h) = (p, inert-semi s h)

inert-equals : (s : Str) → All IsInert s → All (λ d. d ≢ b'=') s
inert-equals [] h = tt
inert-equals (c ∷ s) ((_, (_, p)), h) = (p, inert-equals s h)

pub loop-step :
    (fuel : ℕ) (arguments : Headers) (ptr : Str) (equals end : Option ℕ)
    → ptr ≢ []
    → value_sign (strchr b'=' ptr) (strchr b'&' ptr) (strchr b';' ptr) ≡ equals
    → separator (strchr b'&' ptr) (strchr b';' ptr) ≡ end
    → (key : Str) (value : Option Str) (next : Str) → key_text ptr equals end ≡ key
    → value_text ptr equals end ≡ value
    → next_ptr ptr end ≡ next
    → parse_arguments_loop (suc fuel) arguments ptr ≡ (
        headers_add arguments (cstr (url_unescape key)) (unescaped value) >>= λ arguments'.
        parse_arguments_loop fuel arguments' next)
unfolding parse_arguments_loop
loop-step fuel arguments [] equals end n h k key value next ek ev en = absurd (n refl)
loop-step fuel arguments (c ∷ s) equals end n h k key value next ek ev en =
    rw⁻¹ ek (rw⁻¹ ev (rw⁻¹ en (rw⁻¹ h (rw⁻¹ k refl))))

drop-suc : (s : Str) (c : ℕ) (t : Str) → drop (suc (length s)) (s ++ c ∷ t) ≡ t
drop-suc [] c t = refl
drop-suc (d ∷ s) c t = drop-suc s c t

-- Behind a byte that follows a text.
drop-behind : (s : Str) (c : ℕ) (t : Str) → drop (length s + 1) (s ++ c ∷ t) ≡ t
drop-behind s c t =
    let e : length s + 1 ≡ suc (length s) = omega arith in
    ap (λ n. drop n (s ++ c ∷ t)) e ∙ drop-suc s c t

-- The text of a pair.
abbrev pub pair_of : Str → Str → Str
pair_of key value = key ++ b'=' ∷ value

pair_of-ne_nil : (key value rest : Str) → pair_of key value ++ rest ≢ []
pair_of-ne_nil [] value rest e = cc e
pair_of-ne_nil (c ∷ key) value rest e = cc e

module _ (key value : Str) (k : All IsInert key) (v : All IsInert value) where
  pair_of-amp : All (λ d. d ≢ b'&') (pair_of key value)
  pair_of-amp =
      All-append (λ d. d ≢ b'&') key (b'=' ∷ value) (inert-amp key k)
        (omega arith, inert-amp value v)

  pub pair_of-semi : All (λ d. d ≢ b';') (pair_of key value)
  pair_of-semi =
      All-append (λ d. d ≢ b';') key (b'=' ∷ value) (inert-semi key k)
        (omega arith, inert-semi value v)

  -- The last pair.
  pub loop-last :
      (fuel : ℕ) (arguments : Headers)
      → parse_arguments_loop (suc fuel) arguments (pair_of key value) ≡ (
          headers_add arguments (cstr (url_unescape key)) (some (cstr (url_unescape value)))
          >>= λ arguments'. parse_arguments_loop fuel arguments' [])
  loop-last fuel arguments =
      let ptr = pair_of key value in
      let amp = strchr-none b'&' ptr pair_of-amp in
      let semi = strchr-none b';' ptr pair_of-semi in
      let equals = strchr-at b'=' key value (inert-equals key k) in
      loop-step fuel arguments ptr (some (length key)) none
        (λ e. pair_of-ne_nil key value [] (append-nil ptr ∙ e)) (rw amp (rw semi (rw equals)))
        (rw amp semi) key (some value) [] (take-append_length key (b'=' ∷ value))
        (ap some (drop-behind key b'=' value)) refl

  -- A pair with an ampersand behind it, in a text without a semicolon.
  pub loop-more :
      (fuel : ℕ) (arguments : Headers) (rest : Str)
      → All (λ d. d ≢ b';') rest
      → parse_arguments_loop (suc fuel) arguments (pair_of key value ++ b'&' ∷ rest) ≡ (
          headers_add arguments (cstr (url_unescape key)) (some (cstr (url_unescape value)))
          >>= λ arguments'. parse_arguments_loop fuel arguments' rest)
  loop-more fuel arguments rest h =
      let pair = pair_of key value in
      let ptr = pair ++ b'&' ∷ rest in
      let split : ptr ≡ key ++ b'=' ∷ (value ++ b'&' ∷ rest) =
        append_assoc key (b'=' ∷ value) (b'&' ∷ rest) in
      let amp = strchr-at b'&' pair rest pair_of-amp in
      let semi =
        strchr-none b';' ptr
          (All-append (λ d. d ≢ b';') pair (b'&' ∷ rest) pair_of-semi (omega arith, h)) in
      let equals : strchr b'=' ptr ≡ some (length key) =
        ap (strchr b'=') split ∙ strchr-at b'=' key _ (inert-equals key k) in
      let size : length pair ≡ length key + suc (length value) = length-append key (b'=' ∷ value) in
      let count : length pair - (length key + 1) ≡ length value = omega arith in
      let behind : drop (length key + 1) ptr ≡ value ++ b'&' ∷ rest =
        ap (drop (length key + 1)) split ∙ drop-behind key b'=' _ in
      loop-step fuel arguments ptr (some (length key)) (some (length pair))
        (pair_of-ne_nil key value (b'&' ∷ rest))
        (rw amp (rw semi (rw equals (ground (arith, size))))) (rw amp (rw semi refl)) key
        (some value) rest (ap (take (length key)) split ∙ take-append_length key _)
        (ap some (
          ap (λ n. take n (drop (length key + 1) ptr)) count
          ∙ ap (take (length value)) behind
          ∙ take-append_length value _))
        (drop-behind pair b'&' rest)
