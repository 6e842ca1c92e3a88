-- ===== src/Request/Arguments.antt =====
-- `redhttp_request_parse_arguments` of src/redhttp/request.c.
pub mod Fields
pub mod RoundTrip
pub mod EmptyName
use redstore.Base.{
  ℕ, zero, suc, ◌+◌, ◌-◌, Bool, true, ◌&&◌, Option, none, some, [], ◌∷◌, ltb, if◌then◌else◌, length,
  take, drop, Result, ok, ◌>>=◌, Str, cstr, strchr,
}
use redstore.Headers.{Headers, headers_add}
use redstore.Url.{url_unescape}

-- `!b || a < b` for two results of strchr, the first not NULL
abbrev comes_before : ℕ → Option ℕ → Bool
comes_before a none = true
comes_before a (some b) = ltb a b

-- `equals && (!amp || equals < amp) && (!semi || equals < semi)`: the place of the sign, if so
abbrev pub value_sign : Option ℕ → Option ℕ → Option ℕ → Option ℕ
value_sign none amp semi = none
value_sign (some equals) amp semi =
    if comes_before equals amp && comes_before equals semi then some equals else none

-- The separator that ends the pair: the first of the two.
abbrev pub separator : Option ℕ → Option ℕ → Option ℕ
separator none semi = semi
separator (some amp) semi = if comes_before amp semi then some amp else semi

-- `key`, up to the NUL that was written over the sign or the separator
abbrev pub key_text : Str → Option ℕ → Option ℕ → Str
key_text ptr (some equals) end = take equals ptr
key_text ptr none (some end) = take end ptr
key_text ptr none none = ptr

-- `value`, up to the NUL over the separator
abbrev pub value_text : Str → Option ℕ → Option ℕ → Option Str
value_text ptr none end = none
value_text ptr (some equals) (some end) = some (take (end - (equals + 1)) (drop (equals + 1) ptr))
value_text ptr (some equals) none = some (drop (equals + 1) ptr)

-- The pointer for the next round; the empty text ends the loop, as NULL does.
abbrev pub next_ptr : Str → Option ℕ → Str
next_ptr ptr none = []
next_ptr ptr (some end) = drop (end + 1) ptr

abbrev pub unescaped : Option Str → Option Str
unescaped none = none
unescaped (some s) = some (cstr (url_unescape s))

-- The loop. Its fuel, one more than the length of the text, is enough: each round drops a byte.
unfoldable pub parse_arguments_loop : ℕ → Headers → Str → Result Headers
parse_arguments_loop zero arguments ptr = ok arguments
parse_arguments_loop (suc fuel) arguments [] = ok arguments
parse_arguments_loop (suc fuel) arguments (c ∷ s) =
    let ptr : Str = c ∷ s in
    let amp = strchr b'&' ptr in
    let semi = strchr b';' ptr in
    let equals = value_sign (strchr b'=' ptr) amp semi in
    let end = separator amp semi in
    headers_add arguments (cstr (url_unescape (key_text ptr equals end)))
      (unescaped (value_text ptr equals end))
    >>= λ arguments'. parse_arguments_loop fuel arguments' (next_ptr ptr end)

unfoldable pub parse_arguments : Headers → Option Str → Result Headers
unfolding parse_arguments_loop
parse_arguments arguments none = ok arguments
parse_arguments arguments (some input) = parse_arguments_loop (suc (length input)) arguments input
