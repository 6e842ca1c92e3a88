-- ===== src/Request/Tests.antt =====
-- Runs of src/redhttp/request.c, and the theorems on it for concrete requests.
use redstore.Base.{
  ℕ, zero, suc, ◌≡◌, refl, inr, true, false, some, [], ◌∷◌, ◌++◌, map, arith, length, All,
  assertion, bad_read, bad_write, ok, fault, Str, codes, cstr, strchr, isspace, islower, isupper,
  isalpha, isdigit, toupper, tolower, skip_while, negsuc, read_digits,
}
use redstore.Headers.{headers_add, headers_get, headers_print}
use redstore.Headers.Fields.{Fields, as_headers}
use redstore.Socket.{Socket}
use redstore.Url.{url_unescape}
use redstore.Request.{Request, request_new}
use redstore.Request.Arguments.{parse_arguments}
use redstore.Request.Arguments.EmptyName.{parse_arguments-empty_name}
use redstore.Request.Arguments.RoundTrip.{encode_form, parse_arguments-encode_form}
use redstore.Request.StatusLine.{read_status_line}
use redstore.Request.StatusLine.Parts.{read_status_line_lem}
use redstore.Request.StatusLine.Overread.{read_status_line-overread}
use redstore.Request.Read.{atoi, read_headers, read_body}
use redstore.Request.Read.HeaderLines.{read_headers-headers_print}
use redstore.Request.Read.Content.{IsFormPost, read_body-overflow}

abbrev incoming : Str → Socket
incoming input = record { input = input; eof = false; output = [] }

abbrev form_fields : Fields
form_fields = (codes "q", codes "a b") ∷ (codes "n", codes "1&2") ∷ []

parse_test : parse_arguments [] (some (codes "q=a+b;n=1%262")) ≡ ok (as_headers form_fields)
unfolding parse_arguments headers_add cstr url_unescape strchr
parse_test = refl

-- An empty name, as between two ampersands, stops the program.
empty_name_test : parse_arguments [] (some (codes "a&&b")) ≡ fault assertion
unfolding parse_arguments headers_add cstr url_unescape strchr
empty_name_test = refl

parse_arguments-encode_form_example :
    (text : Str) × (encode_form form_fields ≡ ok text)
    × (parse_arguments [] (some text) ≡ ok (as_headers form_fields))
parse_arguments-encode_form_example = parse_arguments-encode_form form_fields [] (
  ((λ e. cc e, (omega arith, omega arith)), (λ e. cc e, (omega arith, omega arith))),
  (((λ e. cc e, (omega arith, omega arith)), (λ e. cc e, (omega arith, omega arith))), tt),
)

read_status_line_lem_example :
    read_status_line (λ n. true) (request_new (incoming (codes "get /a%20b HTTP/1.1\r\n\r\n")))
    ≡ ok (
      record (request_new (incoming (codes "get /a%20b HTTP/1.1\r\n\r\n"))) {
        method = some (map toupper (codes "get"));
        path_and_query = some (codes "/a%20b");
        path = some (cstr (url_unescape (codes "/a%20b")));
        version = some (codes "1.1");
        socket = record { input = codes "\r\n"; eof = false; output = [] };
      },
      0,
    )
unfolding strchr isalpha isspace
read_status_line_lem_example =
    read_status_line_lem (λ n. true) (request_new (incoming (codes "get /a%20b HTTP/1.1\r\n\r\n")))
      (codes "get") (codes "/a%20b") (codes "1.1") (codes "\r\n") (λ n _. refl) (λ e. cc e)
      (refl, (refl, (refl, tt))) (λ e. cc e) (ground arith) (ground arith) refl (omega arith) refl

-- A method of 8191 letters.
abbrev letters : ℕ → Str
letters zero = []
letters (suc n) = b'A' ∷ letters n

letters-alpha : (n : ℕ) → All (λ c. isalpha c ≡ true) (letters n)
unfolding isalpha islower isupper
letters-alpha zero = tt
letters-alpha (suc n) = (refl, letters-alpha n)

abbrev long_request : Request
long_request = request_new (incoming (letters 8191 ++ b'\n' ∷ []))

read_status_line-overread_example : read_status_line (λ n. true) long_request ≡ fault bad_read
read_status_line-overread_example =
    read_status_line-overread (λ n. true) long_request b'A' (letters 8190) [] (λ n _. refl)
      (letters-alpha 8191) refl

abbrev accept_fields : Fields
accept_fields = (codes "Accept", codes "text/html") ∷ (codes "Host", codes "a:80") ∷ []

read_headers-headers_print_example :
    read_headers
      (λ n. true)
      (suc (length (codes "Accept: text/html\r\nHost: a:80\r\n\r\nX")))
      []
      (incoming (codes "Accept: text/html\r\nHost: a:80\r\n\r\nX"))
    ≡ ok (as_headers accept_fields, incoming (codes "X"))
unfolding headers_print isspace
read_headers-headers_print_example =
    read_headers-headers_print (λ n. true) [] accept_fields
      (incoming (codes "Accept: text/html\r\nHost: a:80\r\n\r\nX"))
      (codes "Accept: text/html\r\nHost: a:80\r\n") (codes "X") (λ n _. refl)
      (
        (((λ e. cc e, omega arith), refl), ((omega arith, omega arith), omega arith)),
        ((((λ e. cc e, omega arith), refl), ((omega arith, omega arith), omega arith)), tt),
      )
      refl refl refl

abbrev posted : Str → Str → Request
posted content_length content = record (request_new (incoming content)) {
  method = some (codes "POST");
  headers = as_headers (
      (codes "Content-Type", codes "application/x-www-form-urlencoded")
      ∷ (codes "Content-Length", content_length)
      ∷ []);
}

posted-IsFormPost : (n content : Str) → IsFormPost (posted n content) n
unfolding headers_get tolower
posted-IsFormPost n content = record { method_read = refl; type_read = refl; length_read = refl }

minus_one : atoi (codes "-1") ≡ negsuc 0
unfolding atoi skip_while isspace read_digits isdigit
minus_one = refl

read_body-overflow_example :
    read_body (λ n. true) (posted (codes "-1") (codes "a=b")) ≡ fault bad_write
read_body-overflow_example =
    read_body-overflow (λ n. true) (posted (codes "-1") (codes "a=b")) (codes "-1")
      (posted-IsFormPost (codes "-1") (codes "a=b")) minus_one refl (λ e. cc e) (omega arith)

parse_arguments-empty_name_example :
    parse_arguments [] (some (codes "=value&n=1")) ≡ fault assertion
parse_arguments-empty_name_example =
    parse_arguments-empty_name [] b'=' (codes "value&n=1") (inr (inr refl))
