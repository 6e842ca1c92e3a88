-- ===== src/Headers/Tests.antt =====
-- Runs of src/redhttp/headers.c, and the theorems on it at concrete tables.
use redstore.Base.{◌≡◌, refl, some, [], ◌∷◌, ok, codes, isspace, tolower, skip_while}
use redstore.Headers.{
  Header, Headers, headers_add, headers_set, headers_parse_line, headers_print, split_colon,
}

abbrev host : Header
host = record { key = codes "Host"; value = some (codes "a") }

abbrev accept : Header
accept = record { key = codes "Accept"; value = some (codes "text/html") }

abbrev table : Headers
table = host ∷ accept ∷ []

set_test :
    headers_set table (codes "HOST") (some (codes "b"))
    ≡ ok (record host { value = some (codes "b") } ∷ accept ∷ [])
unfolding headers_set tolower
set_test = refl

parse_test : headers_parse_line (host ∷ []) (codes "Accept: \ttext/html") ≡ ok table
unfolding headers_parse_line split_colon headers_add skip_while isspace
parse_test = refl

print_test : headers_print table ≡ ok (codes "Host: a\r\nAccept: text/html\r\n")
unfolding headers_print
print_test = refl
