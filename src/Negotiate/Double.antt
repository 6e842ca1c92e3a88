-- ===== src/Negotiate/Double.antt =====
-- `redhttp_negotiate_parse` of src/redhttp/negotiate.c, over the floating-point numbers of C, which
-- are a parameter.
use redstore.Base.{
  ℕ, zero, suc, ◌+◌, ◌-◌, Bool, ◌&&◌, Option, none, some, List, [], ◌∷◌, ◌==◌, if◌then◌else◌, drop,
  Result, ok, ◌>>=◌, Str, ℤ, pos,
}
use redstore.Negotiate.{MediaType, negotiate_add}

-- What the code uses of `double`.
pub record Double : Type 1 where
  pub D : Type 0
  -- `strtod(nptr, &endptr)`; `none` when `endptr == nptr`
  pub strtod : Str → Option D
  pub zero_d : D
  pub half : D
  pub one_d : D
  pub ten : D
  pub leq : D → D → Bool
  pub add : D → D → D
  pub subtract : D → D → D
  pub times : D → D → D
  -- the conversion to `int`
  pub truncate : D → ℤ

module _ (F : Double) where
  open F use {D, strtod, zero_d, half, one_d, ten, leq, add, subtract, times, truncate}

  unfoldable pub negotiate_round : D → ℤ
  negotiate_round d = if leq zero_d d then truncate (add d half) else truncate (subtract d half)

  -- The quality that is read after "q=", or the one so far.
  unfoldable pub read_q : Str → ℤ → ℤ
  unfolding negotiate_round
  read_q nptr q = elim (strtod nptr) [
    | none ↦ q
    | some d ↦ if leq zero_d d && leq d one_d then negotiate_round (times d ten) else q
  ]

  -- One round of the scan: `p[0]` is `c` and `&p[1]` is the string.
  unfoldable pub q_at : ℕ → Str → ℤ → ℤ
  unfolding read_q
  q_at c [] q = q
  q_at c (d ∷ nptr) q = if c == b'q' && d == b'=' then read_q nptr q else q

  -- The scan over the next `n` values of `p`. It does not stop at a match.
  unfoldable pub scan_q : ℕ → Str → ℤ → ℤ
  unfolding q_at
  scan_q zero p q = q
  scan_q (suc n) [] q = q
  scan_q (suc n) (c ∷ p) q = scan_q n p (q_at c p q)

  -- `params - start` for a segment of `n` bytes.
  unfoldable pub params_length : ℕ → Str → ℕ
  params_length zero start = 0
  params_length (suc n) [] = 0
  params_length (suc n) (c ∷ start) = if c == b';' then 0 else suc (params_length n start)

  -- What is done at the end of a segment of `n` bytes: `p` runs from `params` up to `ptr - 3`.
  unfoldable pub add_segment : Str → ℕ → List MediaType → Result (List MediaType)
  unfolding scan_q params_length
  add_segment start n first =
      let type_len = params_length n start in
      negotiate_add first start type_len (scan_q (n - 3 - type_len) (drop type_len start) (pos 10))

  -- The loop on `ptr`, which is `n` bytes after `start`.
  unfoldable pub parse_loop : Str → ℕ → Str → List MediaType → Result (List MediaType)
  unfolding add_segment
  parse_loop start n [] first = add_segment start n first
  parse_loop start n (c ∷ ptr) first =
      let closed = add_segment start n first >>= parse_loop ptr 0 ptr in
      let longer = parse_loop start (n + 1) ptr first in if c == b',' then closed else longer

  unfoldable pub negotiate_parse : Option Str → Result (List MediaType)
  negotiate_parse none = ok []
  negotiate_parse (some []) = ok []
  negotiate_parse (some (c ∷ str)) = parse_loop (c ∷ str) 0 (c ∷ str) []
