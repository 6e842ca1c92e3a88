-- ===== src/Headers/Fields.antt =====
-- Header fields and the lines that stand for them, for src/redhttp/headers.c.
use redstore.Base.{◌≡◌, refl, some, List, [], ◌∷◌, ◌++◌, ok, Str}
use redstore.Headers.{Headers, headers_print}

-- Header fields, each a name and a value.
abbrev pub Fields : Type 0
Fields = List (Str × Str)

abbrev pub as_headers : Fields → Headers
as_headers [] = []
as_headers ((key, value) ∷ next) = record { key = key; value = some value } ∷ as_headers next

-- The lines of the fields, as RFC 1945 has them.
abbrev pub field_lines : Fields → Str
field_lines [] = []
field_lines ((key, value) ∷ next) = key ++ b':' ∷ b' ' ∷ (value ++ b'\r' ∷ b'\n' ∷ field_lines next)

pub headers_print-as_headers :
    (fields : Fields) → headers_print (as_headers fields) ≡ ok (field_lines fields)
unfolding headers_print
headers_print-as_headers [] = refl
headers_print-as_headers ((key, value) ∷ next) = rw (headers_print-as_headers next)
