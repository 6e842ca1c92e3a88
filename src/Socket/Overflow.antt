-- ===== src/Socket/Overflow.antt =====
-- Lines that the buffer of `redhttp_request_read_line` of src/redhttp/request.c has no room for.
use redstore.Base.{
  ℕ, zero, suc, ◌+◌, ◌-◌, ◌*◌, ◌^◌, ◌≤◌, ◌<◌, ◌≡◌, refl, ap, ◌∙◌, ◌⊎◌, inl, inr, true, Option, some,
  List, [], ◌∷◌, ◌++◌, arith, ltb, Bool, Bool-cases, if_true, length, All, int_overflow, ok, fault,
}
use redstore.Socket.{Socket, Line, bufsiz, grown, read_line_loop, read_line}
use redstore.Socket.Lines.{IsInside, CanAllocate, HasRead, read_line_loop-byte}

-- The size of a buffer that has grown some times.
unfoldable doubled : ℕ → ℕ → ℕ
doubled zero size = size
doubled (suc n) size = doubled n (size * 2)

doubled-le : (n size : ℕ) → size ≤ doubled n size
unfolding doubled
doubled-le zero size = omega arith
doubled-le (suc n) size = let k = doubled-le n (size * 2) in omega arith

-- A full buffer of some size up to 2^30 grows, or its size overflows at 2^30.
abbrev Grows : (ℕ → Bool) → ℕ → ℕ → Type 0
Grows can_allocate count size =
    (grown can_allocate (count + 1) size ≡ fault int_overflow)
    ⊎ ((size' : ℕ) × (n : ℕ) × (grown can_allocate (count + 1) size ≡ ok (some size'))
        × (count + 1 < size')
        × (doubled n size' ≡ 2 ^ 30))

full-Grows :
    (can_allocate : ℕ → Bool) (n count size : ℕ)
    → CanAllocate can_allocate
    → count < size
    → doubled n size ≡ 2 ^ 30
    → ltb (size - 1) (count + 1) ≡ true
    → Grows can_allocate count size
unfolding grown doubled
full-Grows can_allocate zero count size memory h e full = inl (ground arith)
full-Grows can_allocate (suc n) count size memory h e full =
    let l = doubled-le n (size * 2) in
    let small : size * 2 < 2 ^ 31 = omega arith in
    let had : can_allocate (size * 2) ≡ true = memory (size * 2) small in
    inr (size * 2, n, ground arith, ground arith, e)

grown-Grows :
    (can_allocate : ℕ → Bool) (n count size : ℕ)
    → CanAllocate can_allocate
    → count < size
    → doubled n size ≡ 2 ^ 30
    → Grows can_allocate count size
unfolding grown
grown-Grows can_allocate n count size memory h e = elim (Bool-cases (ltb (size - 1) (count + 1))) [
  | inr free ↦ inr (size, n, ground arith, ground arith, e)
  | inl full ↦ full-Grows can_allocate n count size memory h e full
]

-- A line that is too long.
read_line_loop-overflow :
    (can_allocate : ℕ → Bool) (output text rest : List ℕ) (n count size : ℕ)
    → CanAllocate can_allocate
    → All IsInside text
    → count < size
    → doubled n size ≡ 2 ^ 30
    → 2 ^ 30 ≤ count + length text
    → read_line_loop can_allocate output (text ++ rest) count size ≡ fault int_overflow
read_line_loop-overflow can_allocate output [] rest n count size memory h k e l =
    let m = doubled-le n size in absurd (omega arith)
read_line_loop-overflow can_allocate output (c ∷ text) rest n count size memory (inside, h) k e l =
    elim (grown-Grows can_allocate n count size memory k e) [
      | inl full ↦
          read_line_loop-byte can_allocate memory output c (text ++ rest) count size inside k
          ∙ rw full refl
      | inr (size', n', er, k', e') ↦
          read_line_loop-byte can_allocate memory output c (text ++ rest) count size inside k
          ∙ rw er (
              rw
                (read_line_loop-overflow can_allocate output text rest n' (count + 1) size' memory h
                  k' e' (omega arith))
                refl)
    ]

pub read_line-overflow :
    (can_allocate : ℕ → Bool) (sock : Socket) (text rest : List ℕ)
    → CanAllocate can_allocate
    → All IsInside text
    → 2 ^ 30 ≤ length text
    → sock.input ≡ text ++ rest
    → read_line can_allocate sock ≡ fault int_overflow
unfolding read_line doubled
read_line-overflow can_allocate sock text rest memory h l e =
    if_true _ _ _ (memory bufsiz (omega arith))
    ∙ ap (λ input. read_line_loop can_allocate sock.output input 0 bufsiz) e
    ∙ read_line_loop-overflow can_allocate sock.output text rest 17 0 bufsiz memory h (omega arith)
        refl (omega arith)

-- What a read does: it gives a result, or the size of the buffer overflows, for a line of at least
-- 2^30 bytes.
abbrev pub Reads : (ℕ → Bool) → Socket → Type 0
Reads can_allocate sock =
    ((r : Option Line × Socket) × (read_line can_allocate sock ≡ ok r) × HasRead sock r)
    ⊎ ((text : List ℕ) × (rest : List ℕ) × (sock.input ≡ text ++ rest)
        × All IsInside text
        × (2 ^ 30 ≤ length text)
        × (read_line can_allocate sock ≡ fault int_overflow))
