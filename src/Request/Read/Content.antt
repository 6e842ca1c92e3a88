-- ===== src/Request/Read/Content.antt =====
-- The content of a POST (src/redhttp/request.c).
use redstore.Base.{
  ℕ, zero, suc, ◌+◌, ◌-◌, ◌/◌, ◌%◌, ◌^◌, ◌≤◌, ◌<◌, ◌≡◌, refl, sym, ap, ◌∙◌, ◌≢◌, inl, inr, Bool,
  true, false, not, some, List, [], ◌∷◌, ◌++◌, arith, ltb, leb, ◌==◌, Bool-cases, if_false, if_true,
  length, take, drop-append_length, take-append_length, bad_write, ok, fault, Str, codes, cstr,
  strn_eq, isspace, isdigit, skip_while, pos, negsuc, decimal, digits_from, read_digits,
}
use redstore.Headers.{Headers, headers_get}
use redstore.Socket.{Socket, fread}
use redstore.Request.{Request}
use redstore.Request.Arguments.{parse_arguments}
use redstore.Request.Read.{atoi, int_of_word, size_of_int, read_body}

read_digits-digits_from :
    (fuel n : ℕ) (rest : Str)
    → n < fuel
    → read_digits 0 (digits_from fuel n rest) ≡ read_digits n rest
unfolding digits_from read_digits isdigit
read_digits-digits_from zero n rest h = absurd (omega arith)
read_digits-digits_from (suc fuel) n rest h = elim (Bool-cases (ltb n 10)) [
  | inl small ↦ ground arith
  | inr large ↦
      let ih = read_digits-digits_from fuel (n / 10) ((b'0' + n % 10) ∷ rest) (ground arith) in
      ground (arith, ih)
]

digits_from-head :
    (fuel n : ℕ) (rest : Str)
    → n < fuel
    → (c : ℕ) × (s : Str) × (digits_from fuel n rest ≡ c ∷ s) × (b'0' ≤ c) × (c ≤ b'9')
unfolding digits_from
digits_from-head zero n rest h = absurd (omega arith)
digits_from-head (suc fuel) n rest h = elim (Bool-cases (ltb n 10)) [
  | inl small ↦ (b'0' + n, rest, rw small, ground arith, ground arith)
  | inr large ↦
      let (c, s, e, l, u) =
        digits_from-head fuel (n / 10) ((b'0' + n % 10) ∷ rest) (ground arith) in
      (c, s, rw large e, l, u)
]

atoi-digits :
    (c : ℕ) (s : Str)
    → b'0' ≤ c
    → c ≤ b'9'
    → read_digits 0 (c ∷ s) < 2 ^ 31
    → atoi (c ∷ s) ≡ pos (read_digits 0 (c ∷ s))
unfolding atoi int_of_word skip_while isspace
atoi-digits c s l u h = ground arith

-- `%d` of a length is read back by atoi.
atoi-decimal : (n : ℕ) → n < 2 ^ 31 → atoi (decimal n) ≡ pos n
unfolding decimal read_digits
atoi-decimal n h =
    let (c, s, e, l, u) = digits_from-head (suc n) n [] (omega arith) in
    let read : read_digits 0 (c ∷ s) ≡ n =
      ap (read_digits 0) (sym e) ∙ read_digits-digits_from (suc n) n [] (omega arith) in
    ap atoi e ∙ atoi-digits c s l u (rw read h) ∙ ap pos read

-- A POST of a form, with a Content-Length header.
pub record IsFormPost (request : Request) (content_length : Str) : Type 0 where
  pub method_read : request.method ≡ some (codes "POST")
  pub type_read :
      headers_get request.headers (codes "Content-Type")
      ≡ some (codes "application/x-www-form-urlencoded")
  pub length_read : headers_get request.headers (codes "Content-Length") ≡ some content_length

fread-all :
    (sock : Socket) (content rest : List ℕ)
    → sock.input ≡ content ++ rest
    → fread (length content + 1) (length content) sock ≡ ok (content, record sock { input = rest })
unfolding fread
fread-all sock content rest h =
    let e1 = take-append_length content rest in
    let e2 = drop-append_length content rest in rw h (rw e1 (rw e2 (ground arith)))

size_add_one-lt : (n : ℕ) → n < 2 ^ 31 → (n + 1) % 2 ^ 64 ≡ n + 1
size_add_one-lt n h = omega arith

-- `bytes_read != content_length`, where all bytes are read
same_length : (n : ℕ) → n < 2 ^ 31 → not (size_of_int (int_of_word (n % 2 ^ 32)) == n) ≡ false
unfolding int_of_word
same_length n h = ground arith

take-all : (n : ℕ) (l : List ℕ) → length l ≤ n → take n l ≡ l
take-all zero [] h = refl
take-all zero (x ∷ l) h = absurd (omega arith)
take-all (suc n) [] h = refl
take-all (suc n) (x ∷ l) h = rw (take-all n l (omega arith))

non_nil-length : (l : List ℕ) → l ≢ [] → leb (length l) 0 ≡ false
non_nil-length [] h = absurd (h refl)
non_nil-length (x ∷ l) h = ground arith

fread-overflow :
    (n : ℕ) (sock : Socket)
    → sock.input ≢ []
    → length sock.input ≤ n
    → fread 0 n sock ≡ fault bad_write
unfolding fread
fread-overflow n sock h short =
    if_false _ _ _
      (ap (λ l. leb (length l) 0) (take-all n sock.input short) ∙ non_nil-length sock.input h)

module _ (can_allocate : ℕ → Bool) where
  -- A form whose Content-Length is the length of the content that follows: the content is kept and
  -- its arguments are parsed. The buffer for it can be allocated, and the length fits an int.
  read_body-form :
      (request : Request) (content rest : List ℕ) (arguments : Headers)
      → IsFormPost request (decimal (length content))
      → length content < 2 ^ 31
      → can_allocate (length content + 1) ≡ true
      → request.socket.input ≡ content ++ rest
      → parse_arguments request.arguments (some (cstr content)) ≡ ok arguments
      → read_body can_allocate request
        ≡ ok (
          record request {
            content_length = length content;
            content_buffer = some content;
            arguments = arguments;
            socket = record request.socket { input = rest };
          },
          0,
        )
  unfolding strn_eq
  read_body-form request content rest arguments h short allocated e parsed =
      let got = fread-all request.socket content rest e in
      let size = atoi-decimal (length content) short in
      rw h.method_read (
        rw h.type_read (
          rw h.length_read (
            rw size (
              rw (size_add_one-lt (length content) short) (
                if_true _ _ _ allocated
                ∙ rw got (if_false _ _ _ (same_length (length content) short) ∙ rw parsed))))))

  -- A form with Content-Length -1: the sum that is asked of calloc is 0, and as many bytes as there
  -- are are read into that buffer of no bytes.
  pub read_body-overflow :
      (request : Request) (content_length : Str)
      → IsFormPost request content_length
      → atoi content_length ≡ negsuc 0
      → can_allocate 0 ≡ true
      → request.socket.input ≢ []
      → length request.socket.input < 2 ^ 64
      → read_body can_allocate request ≡ fault bad_write
  unfolding strn_eq
  read_body-overflow request content_length h minus allocated some_input short = rw h.method_read (
      rw h.type_read (
        rw h.length_read (
          rw minus (
            if_true _ _ _ allocated
            ∙ rw (fread-overflow (2 ^ 64 - 1) request.socket some_input (omega arith))))))
