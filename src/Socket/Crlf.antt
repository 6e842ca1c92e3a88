-- ===== src/Socket/Crlf.antt =====
-- Lines that end with a carriage return and a newline, as `redhttp_request_read_line` of
-- src/redhttp/request.c reads them.
use redstore.Base.{
  ℕ, ◌+◌, ◌^◌, ◌<◌, length, length-append, ◌≡◌, refl, sym, ap, ◌∙◌, ◌≢◌, Bool, false, some, [], ◌∷◌,
  ◌++◌, map, append_assoc, arith, All, All-append, ok, Str, cstr,
}
use redstore.Socket.{Socket, read_line}
use redstore.Socket.Lines.{IsInside, CanAllocate, stored_byte, read_line-line}

-- A byte that is stored as it is.
abbrev pub IsPlain : ℕ → Type 0
IsPlain c = IsInside c × (c ≢ b'\r')

pub stored_plain : (t : Str) → All IsPlain t → map stored_byte t ≡ t
stored_plain [] h = refl
stored_plain (c ∷ t) ((inside, no_cr), h) = rw (stored_plain t h) (ground arith)

map-append : (f : ℕ → ℕ) (s t : Str) → map f (s ++ t) ≡ map f s ++ map f t
map-append f [] t = refl
map-append f (c ∷ s) t = rw (map-append f s t)

pub plain-IsInside : (t : Str) → All IsPlain t → All IsInside t
plain-IsInside [] h = tt
plain-IsInside (c ∷ t) ((inside, _), h) = (inside, plain-IsInside t h)

pub cstr-plain : (t : Str) → All IsPlain t → cstr (t ++ 0 ∷ []) ≡ t
unfolding cstr
cstr-plain [] h = refl
cstr-plain (c ∷ t) (((no_nul, _), _), h) = ground (arith, cstr-plain t h)

-- The bytes of a line that ends with a carriage return and a newline, which its buffer has room for.
abbrev pub FitsBuffer : Str → Type 0
FitsBuffer t = length t + 1 < 2 ^ 30

-- A line of plain bytes that ends with a carriage return and a newline.
pub read_line-crlf :
    (can_allocate : ℕ → Bool) (sock : Socket) (t rest : Str)
    → CanAllocate can_allocate
    → All IsPlain t
    → FitsBuffer t
    → sock.input ≡ t ++ b'\r' ∷ b'\n' ∷ rest
    → (size : ℕ) × (read_line can_allocate sock
        ≡ ok (
          some (record { bytes = t ++ 0 ∷ []; size = size }),
          record { input = rest; eof = false; output = sock.output },
        ))
read_line-crlf can_allocate sock t rest memory h fits e =
    let text = t ++ b'\r' ∷ [] in
    let inside : All IsInside text =
      All-append IsInside t (b'\r' ∷ []) (plain-IsInside t h) ((ground arith, ground arith), tt) in
    let l : length text ≡ length t + 1 = length-append t (b'\r' ∷ []) in
    let (size, er, _) =
      read_line-line can_allocate sock text rest memory inside (omega arith)
        (e ∙ sym (append_assoc t (b'\r' ∷ []) (b'\n' ∷ rest))) in
    let stored : map stored_byte text ≡ t ++ 0 ∷ [] =
      map-append stored_byte t (b'\r' ∷ []) ∙ ap (λ s. s ++ 0 ∷ []) (stored_plain t h) in
    (size, rw⁻¹ stored er)
