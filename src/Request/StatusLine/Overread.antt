-- ===== src/Request/StatusLine/Overread.antt =====
-- A status line that ends with its method (src/redhttp/request.c).
use redstore.Base.{
  ℕ, ◌+◌, ◌^◌, ◌≡◌, refl, ◌∙◌, inl, inr, Bool, true, false, none, [], ◌∷◌, ◌++◌, arith, ltb,
  if◌then◌else◌, Bool-cases, if_false, length, All, bad_read, int_overflow, ok, fault, Str, isspace,
  islower, isupper, isalpha, skip_while,
}
use redstore.Socket.{bufsiz}
use redstore.Socket.Lines.{CanAllocate, read_line-line}
use redstore.Socket.Overflow.{read_line-overflow}
use redstore.Socket.Crlf.{stored_plain, plain-IsInside}
use redstore.Request.{Request}
use redstore.Request.StatusLine.{behind_end, is_empty, split_status_line, read_status_line}
use redstore.Request.StatusLine.Parts.{alpha-IsGraphic, graphic-IsPlain, alpha-space}

skip_while-All : (p : ℕ → Bool) (s : Str) → All (λ c. p c ≡ true) s → skip_while p s ≡ []
unfolding skip_while
skip_while-All p [] h = refl
skip_while-All p (c ∷ s) (q, h) = rw q (skip_while-All p s h)

skip_space-alpha : (s : Str) → All (λ c. isalpha c ≡ true) s → skip_while isspace s ≡ s
unfolding skip_while
skip_space-alpha [] h = refl
skip_space-alpha (c ∷ s) (p, h) = rw (alpha-space c p)

split_status_line-alpha :
    (method : Str) (size : ℕ)
    → All (λ c. isalpha c ≡ true) method
    → split_status_line (record { bytes = method; size = size })
      ≡ (if ltb (length method + 1) bufsiz then ok none else fault bad_read)
unfolding split_status_line behind_end skip_while isspace
split_status_line-alpha method size h = rw (skip_space-alpha method h) (
    rw (skip_while-All isalpha method h) (elim (Bool-cases (ltb (length method + 1) bufsiz)) [
      | inl short ↦ rw short refl
      | inr long ↦ rw long refl
    ]))

alpha-is_empty :
    (c : ℕ) (method : Str)
    → All (λ x. isalpha x ≡ true) (c ∷ method)
    → is_empty (c ∷ method) ≡ false
unfolding isalpha islower isupper
alpha-is_empty c method (p, h) = ground arith

-- A status line that is one word of letters, ended by a newline: up to 8190 letters it is refused with
-- 400, and from 8191 letters on the code reads behind the terminator of the line, outside of what
-- was allocated or set; from 2^30 letters on the size of the buffer overflows before.
-- There is memory for the buffer.
pub read_status_line-overread :
    (can_allocate : ℕ → Bool) (request : Request) (c : ℕ) (method rest : Str)
    → CanAllocate can_allocate
    → All (λ c. isalpha c ≡ true) (c ∷ method)
    → request.socket.input ≡ c ∷ method ++ b'\n' ∷ rest
    → read_status_line can_allocate request ≡ (
        if ltb (length (c ∷ method)) 8191
        then ok (
          record request {
            socket = record { input = rest; eof = false; output = request.socket.output };
          },
          400,
        )
        else if ltb (length (c ∷ method)) (2 ^ 30)
        then fault bad_read
        else fault int_overflow)
unfolding read_status_line
read_status_line-overread can_allocate request c method rest memory h e =
    let plain = graphic-IsPlain (c ∷ method) (alpha-IsGraphic (c ∷ method) h) in
    let inside = plain-IsInside (c ∷ method) plain in
    elim (Bool-cases (ltb (length (c ∷ method)) (2 ^ 30))) [
      | inl fits ↦
          let (size, er, _) =
            read_line-line can_allocate request.socket (c ∷ method) rest memory inside
              (ground arith) e in
          let stored = stored_plain (c ∷ method) plain in
          let parts = split_status_line-alpha (c ∷ method) size h in
          let er' = rw stored at er in
          let filled = alpha-is_empty c method h in
          rw er' (
            if_false _ _ _ filled
            ∙ rw parts (elim (Bool-cases (ltb (length (c ∷ method)) 8191)) [
              | inl short ↦ ground arith
              | inr long ↦ ground arith
            ]))
      | inr long ↦
          let er =
            read_line-overflow can_allocate request.socket (c ∷ method) (b'\n' ∷ rest) memory inside
              (ground arith) e in
          rw er (ground arith)
    ]
