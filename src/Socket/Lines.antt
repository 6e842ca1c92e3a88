-- ===== src/Socket/Lines.antt =====
-- The lines that `redhttp_request_read_line` of src/redhttp/request.c reads.
use redstore.Base.{
  ℕ, ◌+◌, ◌-◌, ◌*◌, ◌^◌, ◌<◌, ◌≡◌, refl, ap, ◌∙◌, ◌≢◌, ◌⊎◌, inl, inr, true, false, Option, none,
  some, List, [], ◌∷◌, ◌++◌, map, arith, ◌==◌, Bool, if◌then◌else◌, if_true, Bool-cases, length,
  ltb, All, ok,
}
use redstore.Socket.{
  Socket, Line, ReadLine, bufsiz, grown, grown_then, with_byte, read_line_loop, read_line,
}

-- A byte that does not end the line.
abbrev pub IsInside : ℕ → Type 0
IsInside c = (c ≢ 0) × (c ≢ b'\n')

-- What is stored for a byte: NUL for a carriage return.
abbrev pub stored_byte : ℕ → ℕ
stored_byte c = if c == b'\r' then 0 else c

-- The line of a text, with the room of its buffer, the rest of the input being left to read.
abbrev IsLine : List ℕ → List ℕ → List ℕ → ℕ → ReadLine → Type 0
IsLine output text rest count r =
    (size : ℕ) × (r
      ≡ ok (
        some (record { bytes = map stored_byte text; size = size }),
        record { input = rest; eof = false; output = output },
      ))
    × (count + length text < size)

-- Memory can be had for each size that an `int` holds.
abbrev pub CanAllocate : (ℕ → Bool) → Type 0
CanAllocate can_allocate = (n : ℕ) → n < 2 ^ 31 → can_allocate n ≡ true

-- The room of a buffer: it has grown where it was full, and it is not so large that it cannot.
abbrev Roomy : (ℕ → Bool) → ℕ → ℕ → Type 0
Roomy can_allocate count size =
    (size' : ℕ) × (grown can_allocate (count + 1) size ≡ ok (some size')) × (count + 1 < size')

grown-Roomy :
    (can_allocate : ℕ → Bool) (count size : ℕ)
    → CanAllocate can_allocate
    → count < size
    → count + 1 < 2 ^ 30
    → Roomy can_allocate count size
unfolding grown
grown-Roomy can_allocate count size memory h k = elim (Bool-cases (ltb (size - 1) (count + 1))) [
  | inl full ↦
      let small : size * 2 < 2 ^ 31 = ground arith in
      let had : can_allocate (size * 2) ≡ true = memory (size * 2) small in
      (size * 2, ground arith, ground arith)
  | inr free ↦ (size, ground arith, ground arith)
]

module _ (can_allocate : ℕ → Bool) (memory : CanAllocate can_allocate) (output : List ℕ) where
  -- One byte inside of a line.
  pub read_line_loop-byte :
      (c : ℕ) (input : List ℕ) (count size : ℕ)
      → IsInside c
      → count < size
      → read_line_loop can_allocate output (c ∷ input) count size
        ≡ with_byte (stored_byte c) (
            grown_then can_allocate
              (record { input = input; eof = false; output = output })
              (grown can_allocate (count + 1) size)
              (read_line_loop can_allocate output input (count + 1)))
  unfolding read_line_loop
  read_line_loop-byte c input count size (no_nul, no_end) k = ground arith

  read_line_loop-IsLine :
      (text rest : List ℕ) (count size : ℕ)
      → All IsInside text
      → count < size
      → count + length text < 2 ^ 30
      → IsLine output text rest count
          (read_line_loop can_allocate output (text ++ b'\n' ∷ rest) count size)
  unfolding read_line_loop
  read_line_loop-IsLine [] rest count size h k l = (size, ground arith, omega arith)
  read_line_loop-IsLine (c ∷ text) rest count size (inside, h) k l =
      let (room, er, kr) = grown-Roomy can_allocate count size memory k (omega arith) in
      let (size', e, m) = read_line_loop-IsLine text rest (count + 1) room h kr (omega arith) in
      (
        size',
        read_line_loop-byte c (text ++ b'\n' ∷ rest) count size inside k ∙ rw er (rw e refl),
        omega arith,
      )

  -- NULL is returned at the end of the input.
  pub read_line_loop-eof :
      (text : List ℕ) (count size : ℕ)
      → All IsInside text
      → count < size
      → count + length text < 2 ^ 30
      → read_line_loop can_allocate output text count size
        ≡ ok (none, record { input = []; eof = true; output = output })
  unfolding read_line_loop
  read_line_loop-eof [] count size h k l = refl
  read_line_loop-eof (c ∷ text) count size (inside, h) k l =
      let (room, er, kr) = grown-Roomy can_allocate count size memory k (omega arith) in
      read_line_loop-byte c text count size inside k
      ∙ rw er (rw (read_line_loop-eof text (count + 1) room h kr (omega arith)) refl)

  -- NULL is returned at a NUL.
  pub read_line_loop-nul :
      (text rest : List ℕ) (count size : ℕ)
      → All IsInside text
      → count < size
      → count + length text < 2 ^ 30
      → read_line_loop can_allocate output (text ++ 0 ∷ rest) count size
        ≡ ok (none, record { input = rest; eof = false; output = output })
  unfolding read_line_loop
  read_line_loop-nul [] rest count size h k l = refl
  read_line_loop-nul (c ∷ text) rest count size (inside, h) k l =
      let (room, er, kr) = grown-Roomy can_allocate count size memory k (omega arith) in
      read_line_loop-byte c (text ++ 0 ∷ rest) count size inside k
      ∙ rw er (rw (read_line_loop-nul text rest (count + 1) room h kr (omega arith)) refl)

-- The first byte that ends a line, if any.
pub data Ending (input : List ℕ) : Type 0 where
  at_newline :
      (text rest : List ℕ) → All IsInside text → input ≡ text ++ b'\n' ∷ rest → Ending input
  at_nul : (text rest : List ℕ) → All IsInside text → input ≡ text ++ 0 ∷ rest → Ending input
  at_end : All IsInside input → Ending input

pub find-Ending : (input : List ℕ) → Ending input
find-Ending [] = at_end tt
find-Ending (c ∷ input) = elim (Bool-cases (c == 0)) [
  | inl nul ↦ at_nul [] input tt (ground arith)
  | inr no_nul ↦ elim (Bool-cases (c == b'\n')) [
    | inl end ↦ at_newline [] input tt (ground arith)
    | inr no_end ↦ elim (find-Ending input) [
      | at_newline text rest h e ↦
          at_newline (c ∷ text) rest ((ground arith, ground arith), h) (ap (λ t. c ∷ t) e)
      | at_nul text rest h e ↦
          at_nul (c ∷ text) rest ((ground arith, ground arith), h) (ap (λ t. c ∷ t) e)
      | at_end h ↦ at_end ((ground arith, ground arith), h)
    ]
  ]
]

-- What a read gives: the bytes up to the first newline, in a buffer that has room for them and their
-- terminator; or none, at the end of the input or behind a NUL.
abbrev pub HasRead : Socket → Option Line × Socket → Type 0
HasRead sock (some line, sock') =
    (text : List ℕ) × All IsInside text
    × (sock.input ≡ text ++ b'\n' ∷ sock'.input)
    × (line.bytes ≡ map stored_byte text)
    × (length line.bytes < line.size)
HasRead sock (none, sock') =
    (text : List ℕ) × All IsInside text
    × (((sock.input ≡ text) × (sock'.eof ≡ true)) ⊎ (sock.input ≡ text ++ 0 ∷ sock'.input))

pub length-map : (f : ℕ → ℕ) (l : List ℕ) → length (map f l) ≡ length l
length-map f [] = refl
length-map f (x ∷ l) = rw (length-map f l)

-- The line that a text up to a newline gives, in a buffer of some size.
pub read_line-line :
    (can_allocate : ℕ → Bool) (sock : Socket) (text rest : List ℕ)
    → CanAllocate can_allocate
    → All IsInside text
    → length text < 2 ^ 30
    → sock.input ≡ text ++ b'\n' ∷ rest
    → (size : ℕ) × (read_line can_allocate sock
        ≡ ok (
          some (record { bytes = map stored_byte text; size = size }),
          record { input = rest; eof = false; output = sock.output },
        ))
      × (length text < size)
unfolding read_line
read_line-line can_allocate sock text rest memory h l e =
    let (size, er, m) =
      read_line_loop-IsLine can_allocate memory sock.output text rest 0 bufsiz h (omega arith)
        (omega arith) in
    (
      size,
      if_true _ _ _ (memory bufsiz (omega arith))
          ∙ (ap (λ input. read_line_loop can_allocate sock.output input 0 bufsiz) e ∙ er),
      omega arith,
    )
