-- ===== src/Headers.antt =====
-- src/redhttp/headers.c, and `redhttp_strcasecmp` of src/redhttp/redhttp_private.h. The linked list
-- is a list; memory that malloc returns is taken to be there.
pub mod Lookup
pub mod Lines
pub mod Fields
mod Tests
use redstore.Base.{
  ℕ, ◌+◌, Bool, true, false, ◌&&◌, Option, none, some, List, [], ◌∷◌, ◌++◌, ◌==◌, if◌then◌else◌,
  null_pointer, Result, ok, fault, ◌>>=◌, ◌>>◌, assert, Str, isspace, tolower, skip_while,
}

-- struct redhttp_header_s; the value `none` is NULL.
pub record Header : Type 0 where
  pub key : Str
  pub value : Option Str

abbrev pub Headers : Type 0
Headers = List Header

-- `redhttp_strcasecmp(s1, s2) == 0`
unfoldable pub strcasecmp_eq : Str → Str → Bool
strcasecmp_eq [] [] = true
strcasecmp_eq (c ∷ s) (d ∷ t) = tolower c == tolower d && strcasecmp_eq s t
strcasecmp_eq _ _ = false

-- `value && strlen(value) ? redhttp_strdup(value) : NULL`
unfoldable pub stored : Option Str → Option Str
stored none = none
stored (some []) = none
stored (some (c ∷ s)) = some (c ∷ s)

-- `strlen(s) > 0`
abbrev pub non_empty : Str → Bool
non_empty [] = false
non_empty (c ∷ s) = true

unfoldable pub headers_add : Headers → Str → Option Str → Result Headers
unfolding stored
headers_add first key value = do
  assert (non_empty key)
  ok (first ++ record { key = key; value = stored value } ∷ [])

-- The loop of `headers_set`: `none` if no header has the key.
unfoldable pub replace_value : Headers → Str → Option Str → Option Headers
unfolding strcasecmp_eq stored
replace_value [] key value = none
replace_value (it ∷ next) key value =
    let rest = replace_value next key value in
    if strcasecmp_eq key it.key
    then some (record it { value = stored value } ∷ next)
    else elim rest [ none ↦ none | some changed ↦ some (it ∷ changed) ]

unfoldable pub headers_set : Headers → Str → Option Str → Result Headers
unfolding replace_value headers_add
headers_set first key value = elim (replace_value first key value) [
  | some changed ↦ ok changed
  | none ↦ headers_add first key value
]

unfoldable pub headers_count : Headers → ℕ
headers_count [] = 0
headers_count (it ∷ next) = 1 + headers_count next

unfoldable pub headers_get : Headers → Str → Option Str
unfolding strcasecmp_eq
headers_get [] key = none
headers_get (it ∷ next) key = if strcasecmp_eq key it.key then it.value else headers_get next key

unfoldable pub headers_exists : Headers → Str → Bool
unfolding strcasecmp_eq
headers_exists [] key = false
headers_exists (it ∷ next) key = if strcasecmp_eq key it.key then true else headers_exists next key

-- The loop with its counter; `none` is the result 0, which sets both pointers to NULL.
get_index_from : ℕ → Headers → ℕ → Option Header
get_index_from i [] index = none
get_index_from i (it ∷ next) index =
    if index == i then some it else get_index_from (i + 1) next index

unfoldable pub headers_get_index : Headers → ℕ → Option Header
unfolding get_index_from
headers_get_index first index = get_index_from 0 first index

-- The bytes before the colon and those after it; `none` if there is no colon.
unfoldable pub split_colon : Str → Option (Str × Str)
split_colon [] = none
split_colon (c ∷ s) =
    let rest = split_colon s in
    if c == b':'
    then some ([], s)
    else elim rest [ none ↦ none | some (key, value) ↦ some (c ∷ key, value) ]

unfoldable pub headers_parse_line : Headers → Str → Result Headers
headers_parse_line first input = elim (split_colon input) [
  | none ↦ ok first
  | some (key, ptr) ↦
      let value = skip_while isspace ptr in
      if non_empty value then headers_add first key (some value) else ok first
]

-- "%s" of a null pointer is undefined.
abbrev pub printed : Option Str → Result Str
printed none = fault null_pointer
printed (some s) = ok s

unfoldable pub headers_print : Headers → Result Str
headers_print [] = ok []
headers_print (it ∷ next) = do
  value ← printed it.value
  rest ← headers_print next
  ok (it.key ++ b':' ∷ b' ' ∷ (value ++ b'\r' ∷ b'\n' ∷ rest))
