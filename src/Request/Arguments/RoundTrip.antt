-- ===== src/Request/Arguments/RoundTrip.antt =====
-- Forms that `redhttp_request_parse_arguments` of src/redhttp/request.c reads back.
use redstore.Base.{
  ℕ, zero, suc, ◌≤◌, ◌<◌, ◌≡◌, refl, sym, ap, ◌∙◌, ◌≢◌, inl, inr, some, [], ◌∷◌, ◌++◌, append_assoc,
  append-nil, arith, length, length-append, All, All-append, Result, ok, ◌>>=◌, ok-injective, Str,
  cstr, NoNul, cstr_of_NoNul,
}
use redstore.Headers.{Headers, headers_add}
use redstore.Headers.Fields.{Fields, as_headers}
use redstore.Url.{isurlsafe, url_escape, url_unescape}
use redstore.Url.RoundTrip.{IsAscii, IsEscaped, url_unescape-url_escape}
use redstore.Request.Arguments.{parse_arguments_loop, parse_arguments}
use redstore.Request.Arguments.Fields.{IsInert, pair_of, pair_of-semi, loop-last, loop-more}

-- A pair as a client encodes it.
abbrev pub encode_pair : Str × Str → Result Str
encode_pair (key, value) = do k ← url_escape key; v ← url_escape value; ok (pair_of k v)

-- The pairs of a form, joined by ampersands.
pub encode_form : Fields → Result Str
encode_form [] = ok []
encode_form (f ∷ []) = encode_pair f
encode_form (f ∷ g ∷ next) = do
  pair ← encode_pair f
  rest ← encode_form (g ∷ next)
  ok (pair ++ b'&' ∷ rest)

-- An ASCII text without NUL, and not empty.
abbrev pub IsArgument : Str → Type 0
IsArgument s = (s ≢ []) × (IsAscii s × NoNul s)

abbrev pub AreArguments : Fields → Type 0
AreArguments fields = All (λ f. IsArgument f.0 × IsArgument f.1) fields

escaped-IsInert : (s : Str) → All IsEscaped s → All IsInert s
unfolding isurlsafe
escaped-IsInert [] h = tt
escaped-IsInert (c ∷ s) (inl p, h) =
    ((ground arith, (ground arith, ground arith)), escaped-IsInert s h)
escaped-IsInert (c ∷ s) (inr p, h) =
    ((ground arith, (ground arith, ground arith)), escaped-IsInert s h)

-- How a pair is encoded, and what its parts decode to.
encode_pair_lem :
    (key value : Str)
    → IsArgument key
    → IsArgument value
    → (k : Str) × (v : Str) × (encode_pair (key, value) ≡ ok (pair_of k v))
      × (All IsInert k × All IsInert v)
      × ((cstr (url_unescape k) ≡ key) × (cstr (url_unescape v) ≡ value))
encode_pair_lem key value (_, (ka, kn)) (_, (va, vn)) =
    let (k, ek, ik, uk) = url_unescape-url_escape key ka in
    let (v, ev, iv, uv) = url_unescape-url_escape value va in
    (
      k,
      v,
      rw ek (rw ev refl),
      (escaped-IsInert k ik, escaped-IsInert v iv),
      (ap cstr uk ∙ cstr_of_NoNul key kn, ap cstr uv ∙ cstr_of_NoNul value vn),
    )

headers_add-field :
    (arguments : Headers) (key value : Str)
    → key ≢ []
    → value ≢ []
    → headers_add arguments key (some value) ≡ ok (arguments ++ as_headers ((key, value) ∷ []))
unfolding headers_add
headers_add-field arguments [] value n m = absurd (n refl)
headers_add-field arguments (c ∷ key) [] n m = absurd (m refl)
headers_add-field arguments (c ∷ key) (d ∷ value) n m = refl

loop-nil : (fuel : ℕ) (arguments : Headers) → parse_arguments_loop fuel arguments [] ≡ ok arguments
unfolding parse_arguments_loop
loop-nil zero arguments = refl
loop-nil (suc fuel) arguments = refl

encode_form_lem :
    (fields : Fields) (fuel : ℕ) (arguments : Headers)
    → AreArguments fields
    → length fields < fuel
    → (text : Str) × (encode_form fields ≡ ok text)
      × (parse_arguments_loop fuel arguments text ≡ ok (arguments ++ as_headers fields))
      × (length fields ≤ length text)
      × All (λ d. d ≢ b';') text
unfolding encode_form
encode_form_lem fields zero arguments h l = absurd (omega arith)
encode_form_lem [] (suc fuel) arguments h l =
    ([], refl, unfold parse_arguments_loop in rw (append-nil arguments), omega arith, tt)
encode_form_lem ((key, value) ∷ []) (suc fuel) arguments ((ka, va), h) l =
    let (k, v, e, (ik, iv), (uk, uv)) = encode_pair_lem key value ka va in
    let add = headers_add-field arguments key value ka.0 va.0 in
    let size = length-append k (b'=' ∷ v) in
    (
      pair_of k v,
      e,
      loop-last k v ik iv fuel arguments ∙ rw uk (rw uv (rw add (loop-nil fuel _))),
      omega arith,
      pair_of-semi k v ik iv,
    )
encode_form_lem ((key, value) ∷ g ∷ next) (suc fuel) arguments ((ka, va), h) l =
    let (k, v, e, (ik, iv), (uk, uv)) = encode_pair_lem key value ka va in
    let add = headers_add-field arguments key value ka.0 va.0 in
    let (rest, er, ep, el, es) =
      encode_form_lem (g ∷ next) fuel (arguments ++ as_headers ((key, value) ∷ [])) h
        (omega arith) in
    let size = length-append (pair_of k v) (b'&' ∷ rest) in
    (
      pair_of k v ++ b'&' ∷ rest,
      rw e (rw er refl),
      loop-more k v ik iv fuel arguments rest es
          ∙ rw uk (
              rw uv (
                rw add (
                  ep
                  ∙ ap ok (
                      append_assoc arguments (as_headers ((key, value) ∷ []))
                        (as_headers (g ∷ next)))))),
      omega arith,
      All-append (λ d. d ≢ b';') (pair_of k v) (b'&' ∷ rest) (pair_of-semi k v ik iv)
          (omega arith, es),
    )

-- A form that is encoded as a client does it, with each name and value escaped and the pairs joined by
-- ampersands, is parsed into these arguments, behind those that are there, and all of it is read. The
-- names and values are ASCII texts without NUL, and not empty.
pub parse_arguments-encode_form :
    (fields : Fields) (arguments : Headers)
    → AreArguments fields
    → (text : Str) × (encode_form fields ≡ ok text)
      × (parse_arguments arguments (some text) ≡ ok (arguments ++ as_headers fields))
unfolding parse_arguments
parse_arguments-encode_form fields arguments h =
    let (text, e, _, l, _) =
      encode_form_lem fields (suc (length fields)) arguments h (omega arith) in
    let (text', e', parsed, _, _) =
      encode_form_lem fields (suc (length text)) arguments h (omega arith) in
    let same : text ≡ text' = ok-injective (sym e ∙ e') in
    (text, e, ap (parse_arguments_loop (suc (length text)) arguments) same ∙ parsed)
