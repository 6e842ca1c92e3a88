-- ===== src/Response/Send/General.antt =====
-- The headers that every response of src/redhttp/response.c gets.
use redstore.Base.{
  ℕ, zero, suc, ◌+◌, ◌/◌, ◌%◌, ◌≤◌, ◌<◌, ◌≡◌, refl, ap, ◌∙◌, some, List, [], ◌∷◌, ◌++◌, arith,
  length, ok, Str, codes, pos, decimal, digits_from,
}
use redstore.Headers.{headers_add}
use redstore.Headers.Fields.{Fields, as_headers}
use redstore.Response.{Response, add_header, add_time_header}
use redstore.Response.Send.{add_content_length, add_server, add_general_headers}

as_headers-snoc :
    (fields : Fields) (key value : Str)
    → as_headers fields ++ record { key = key; value = some value } ∷ []
      ≡ as_headers (fields ++ (key, value) ∷ [])
as_headers-snoc [] key value = refl
as_headers-snoc ((k, v) ∷ fields) key value = rw (as_headers-snoc fields key value)

pub add_header-as_headers :
    (response : Response) (fields : Fields) (key value : Str)
    → response.headers ≡ as_headers fields
    → 0 < length key
    → 0 < length value
    → add_header response key (some value)
      ≡ ok (record response { headers = as_headers (fields ++ (key, value) ∷ []) })
unfolding add_header headers_add
add_header-as_headers response fields [] value h k l = absurd (omega arith)
add_header-as_headers response fields (c ∷ key) [] h k l = absurd (omega arith)
add_header-as_headers response fields (c ∷ key) (d ∷ value) h k l =
    rw (h, as_headers-snoc fields (c ∷ key) (d ∷ value))

-- The fields that a response gets when it is sent.
abbrev pub general_fields : ℕ → Str → Str → Fields
general_fields n date signature =
    (codes "Content-Length", decimal n)
    ∷ (codes "Date", date)
    ∷ (codes "Connection", codes "Close")
    ∷ (codes "Server", signature)
    ∷ []

digits_from-le : (fuel n : ℕ) (rest : Str) → length rest ≤ length (digits_from fuel n rest)
unfolding digits_from
digits_from-le zero n rest = omega arith
digits_from-le (suc fuel) n rest =
    ground (arith, digits_from-le fuel (n / 10) ((b'0' + n % 10) ∷ rest))

decimal-lt : (n : ℕ) → 0 < length (decimal n)
unfolding decimal digits_from
decimal-lt n = ground (arith, digits_from-le n (n / 10) ((b'0' + n % 10) ∷ []))

-- The response with other headers.
abbrev pub with_fields : Response → Fields → Response
with_fields response fields = record response { headers = as_headers fields }

module _ (response : Response) (fields : Fields) (key value : Str) (k : 0 < length key)
    (l : 0 < length value) where
  pub add_header-with_fields :
      add_header (with_fields response fields) key (some value)
      ≡ ok (with_fields response (fields ++ (key, value) ∷ []))
  add_header-with_fields =
      add_header-as_headers (with_fields response fields) fields key value refl k l

pub append-three :
    {A : Type 0}
    → (l : List A) (a b c : A) → ((l ++ a ∷ []) ++ b ∷ []) ++ c ∷ [] ≡ l ++ a ∷ b ∷ c ∷ []
append-three [] a b c = refl
append-three (x ∷ l) a b c = rw (append-three l a b c)

append-four :
    {A : Type 0}
    → (l : List A) (a b c d : A)
    → (((l ++ a ∷ []) ++ b ∷ []) ++ c ∷ []) ++ d ∷ [] ≡ l ++ a ∷ b ∷ c ∷ d ∷ []
append-four [] a b c d = refl
append-four (x ∷ l) a b c d = rw (append-four l a b c d)

pub add_general_headers_lem :
    (response : Response) (fields : Fields) (n : ℕ) (date signature : Str)
    → response.headers ≡ as_headers fields
    → response.content_length ≡ pos n
    → 0 < length date
    → 0 < length signature
    → add_general_headers response (some (some signature)) (some date)
      ≡ ok (with_fields response (fields ++ general_fields n date signature))
unfolding add_general_headers add_content_length add_server add_time_header
add_general_headers_lem response fields n date signature h k d s =
    let f1 = fields ++ (codes "Content-Length", decimal n) ∷ [] in
    let f2 = f1 ++ (codes "Date", date) ∷ [] in
    let f3 = f2 ++ (codes "Connection", codes "Close") ∷ [] in
    let e1 =
      add_header-as_headers response fields (codes "Content-Length") (decimal n) h (omega arith)
        (decimal-lt n) in
    let e2 = add_header-with_fields response f1 (codes "Date") date (omega arith) d in
    let e3 =
      add_header-with_fields response f2 (codes "Connection") (codes "Close") (omega arith)
        (omega arith) in
    let e4 = add_header-with_fields response f3 (codes "Server") signature (omega arith) s in
    let s1 : add_content_length response response.content_length ≡ ok (with_fields response f1) =
      ap (add_content_length response) k ∙ e1 in
    rw s1 (rw (e2, add_time_header) (rw e3 (rw (e4, add_server) (rw append-four))))
