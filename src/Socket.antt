-- ===== src/Socket.antt =====
-- The standard input and output streams of a connection, as src/redhttp/request.c and
-- src/redhttp/response.c use them, and `redhttp_request_read_line`. Whether calloc and realloc give a
-- buffer of some size is a parameter.
pub mod Lines
pub mod Crlf
pub mod Overflow
mod Tests
use redstore.Base.{
  ℕ, ◌+◌, ◌-◌, ◌*◌, ◌^◌, Bool, true, false, not, Option, none, some, List, [], ◌∷◌, ltb, leb, ◌==◌,
  if◌then◌else◌, length, take, drop, bad_write, int_overflow, Result, ok, fault,
}

-- What is left to read, the end-of-file indicator, and what was written.
pub record Socket : Type 0 where
  pub input : List ℕ
  pub eof : Bool
  pub output : List ℕ

-- BUFSIZ of <stdio.h>
abbrev pub bufsiz : ℕ
bufsiz = 8192

-- A line in its buffer: the bytes before the last NUL that was written, and the allocated size. A
-- carriage return is a NUL among the bytes.
pub record Line : Type 0 where
  pub bytes : List ℕ
  pub size : ℕ

abbrev pub ReadLine : Type 0
ReadLine = Result (Option Line × Socket)

-- `buffer[buffer_count] = c` before the rest of the line
abbrev pub with_byte : ℕ → ReadLine → ReadLine
with_byte c (fault e) = fault e
with_byte c (ok (none, sock)) = ok (none, sock)
with_byte c (ok (some line, sock)) = ok (some (record line { bytes = c ∷ line.bytes }), sock)

module _ (can_allocate : ℕ → Bool) where
  -- `if (buffer_count > (buffer_size - 1))`, where the size, an `int`, is doubled; none is a realloc
  -- that fails.
  unfoldable pub grown : ℕ → ℕ → Result (Option ℕ)
  grown count size =
      if ltb (size - 1) count
      then (if ltb (size * 2) (2 ^ 31)
          then ok (if can_allocate (size * 2) then some (size * 2) else none)
          else fault int_overflow)
      else ok (some size)

  -- The rest of the loop, in the buffer as it has grown; NULL is returned if it could not.
  abbrev pub grown_then : Socket → Result (Option ℕ) → (ℕ → ReadLine) → ReadLine
  grown_then sock (fault broken) rest = fault broken
  grown_then sock (ok none) rest = ok (none, sock)
  grown_then sock (ok (some size)) rest = rest size

  -- The loop, with `buffer_count` and `buffer_size`; `none` is NULL. The count is below the size,
  -- which is an `int`.
  unfoldable pub read_line_loop : List ℕ → List ℕ → ℕ → ℕ → ReadLine
  unfolding grown
  read_line_loop output [] count size =
      ok (none, record { input = []; eof = true; output = output })
  read_line_loop output (c ∷ input) count size =
      let sock : Socket = record { input = input; eof = false; output = output } in
      let more =
        with_byte (if c == b'\r' then 0 else c)
          (grown_then sock (grown (count + 1) size) (read_line_loop output input (count + 1))) in
      if c == 0
      then ok (none, sock)
      else if not (ltb count size)
      then fault bad_write
      else if c == b'\n'
      then ok (some (record { bytes = []; size = size }), sock)
      else more

  unfoldable pub read_line : Socket → ReadLine
  unfolding read_line_loop
  read_line sock =
      if can_allocate bufsiz
      then read_line_loop sock.output sock.input 0 bufsiz
      else ok (none, sock)

-- `fread(buffer, 1, n, socket)` into a buffer of `capacity` bytes
unfoldable pub fread : ℕ → ℕ → Socket → Result (List ℕ × Socket)
fread capacity n sock =
    let got = take n sock.input in
    let sock' : Socket = record sock {
      input = drop n sock.input;
      eof = if ltb (length got) n then true else sock.eof;
    } in
    if leb (length got) capacity then ok (got, sock') else fault bad_write
