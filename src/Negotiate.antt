-- ===== src/Negotiate.antt =====
-- src/redhttp/negotiate.c: content negotiation by the quality of media types. The linked list is a
-- list.
pub mod Double
pub mod Parse
pub mod Format
pub mod Tests
pub mod Sort
pub mod Choose
use redstore.Base.{
  ℕ, zero, suc, ◌+◌, ◌-◌, ◌*◌, ◌/◌, ◌%◌, Bool, true, false, ◌&&◌, Option, none, some, List, [], ◌∷◌,
  ◌++◌, ltb, leb, ◌==◌, if◌then◌else◌, length, take, bad_read, Result, ok, fault, ◌>>=◌, ◌>>◌,
  assert, Str, codes, str_eq, isspace, trim_right, ℤ, pos, negsuc, decimal,
}
use mathlib.Core.Option

-- struct redhttp_negotiate_s; `q` is in tenths.
pub record MediaType : Type 0 where
  pub type : Str
  pub q : ℕ

unfoldable pub compare_types : Str → Str → Bool
compare_types server_type client_type =
    if str_eq client_type (codes "*/*") then true else str_eq server_type client_type

-- `best_score` and `best_type`; `none` is -1 and NULL, which are assigned together.
abbrev pub Best : Type 0
Best = Option (ℕ × Str)

-- `score > best_score`
abbrev pub improves : ℕ → Best → Bool
improves score none = true
improves score (some (best_score, best_type)) = ltb best_score score

-- The loop over the client's types, which ends at the first that matches and improves the score.
unfoldable pub choose_client : MediaType → List MediaType → Best → Best
choose_client s [] best = best
choose_client s (c ∷ next) best =
    let later = choose_client s next best in
    if compare_types s.type c.type && improves (s.q * c.q) best
    then some (s.q * c.q, s.type)
    else later

unfoldable pub choose_server : List MediaType → List MediaType → Best → Best
choose_server [] client best = best
choose_server (s ∷ next) client best = choose_server next client (choose_client s client best)

abbrev best_type : Best → Option Str
best_type none = none
best_type (some (score, type)) = some type

unfoldable pub negotiate_choose : List MediaType → List MediaType → Option Str
negotiate_choose server client = best_type (choose_server server client none)

-- The loop with its counter; `none` is the result -1.
get_from : ℕ → List MediaType → ℕ → Option MediaType
get_from count [] i = none
get_from count (it ∷ next) i = if count == i then some it else get_from (count + 1) next i

unfoldable negotiate_get : List MediaType → ℤ → Option MediaType
unfolding get_from
negotiate_get first (negsuc i) = none
negotiate_get first (pos i) = get_from 0 first i

unfoldable pub negotiate_count : List MediaType → ℕ
negotiate_count [] = 0
negotiate_count (it ∷ next) = 1 + negotiate_count next

-- The inner loop of the sort, which carries the node `a` over the next `m` nodes, up to `e`.
unfoldable pub sort_pass : ℕ → List MediaType → List MediaType
sort_pass zero first = first
sort_pass (suc m) [] = []
sort_pass (suc m) (a ∷ []) = a ∷ []
sort_pass (suc m) (a ∷ b ∷ next) =
    let swapped = b ∷ sort_pass m (a ∷ next) in
    let kept = a ∷ sort_pass m (b ∷ next) in if ltb a.q b.q then swapped else kept

-- The outer loop: `e` is the node after the first `m + 1`, and `e == first->next` when `m` is 0.
unfoldable pub sort_loop : ℕ → List MediaType → List MediaType
sort_loop zero first = first
sort_loop (suc m) first = sort_loop m (sort_pass (suc m) first)

unfoldable pub negotiate_sort : List MediaType → List MediaType
negotiate_sort first = sort_loop (negotiate_count first - 1) first

-- `assert(type_len > 0)` and the loop that skips white space at the start. With no byte left the
-- length wraps below 0, and the copy that follows reads outside the text. The
-- caller's `type_len` is at most the length of the text.
unfoldable pub trim_start : Str → ℕ → Result (Str × ℕ)
trim_start type zero = fault bad_read
trim_start [] (suc n) = ok ([], suc n)
trim_start (c ∷ type) (suc n) =
    let rest = trim_start type n in if isspace c then rest else ok (c ∷ type, suc n)

-- `q <= 10 && q >= 0`
abbrev pub in_tenths : ℤ → Bool
in_tenths (pos q) = leb q 10
in_tenths (negsuc q) = false

abbrev pub to_tenths : ℤ → ℕ
to_tenths (pos q) = q
to_tenths (negsuc q) = 0

unfoldable pub negotiate_add : List MediaType → Str → ℕ → ℤ → Result (List MediaType)
negotiate_add first type type_len q = do
  assert (ltb 0 type_len)
  assert (in_tenths q)
  (start, len) ← trim_start type type_len
  let new : MediaType = record { type = trim_right (take len start); q = to_tenths q }
  ok (negotiate_sort (first ++ new ∷ []))

-- `snprintf(ptr, 7, ";q=%1.1f", q / 10.0)`
unfoldable pub q_text : ℕ → Str
unfolding decimal
q_text q = take 6 (codes ";q=" ++ (decimal (q / 10) ++ b'.' ∷ (b'0' + q % 10) ∷ []))

abbrev not_last : List MediaType → Bool
not_last [] = false
not_last (it ∷ next) = true

-- The first pass of `to_string`: the length that is allocated, without the terminator.
unfoldable pub string_length : List MediaType → ℕ
string_length [] = 0
string_length (it ∷ next) =
    length it.type
    + (if it.q == 10 then 0 else 6)
    + (if not_last next then 1 else 0)
    + string_length next

-- The second pass.
unfoldable pub negotiate_to_string : List MediaType → Str
negotiate_to_string [] = []
negotiate_to_string (it ∷ next) =
    it.type
    ++ ((if it.q == 10 then [] else q_text it.q)
        ++ ((if not_last next then b',' ∷ [] else []) ++ negotiate_to_string next))

-- `%1.1f` of a quality in tenths
abbrev q_decimal : ℕ → Str
q_decimal q = (b'0' + q / 10) ∷ b'.' ∷ (b'0' + q % 10) ∷ []

abbrev negotiate_print : List MediaType → Str
negotiate_print [] = []
negotiate_print (it ∷ next) =
    it.type ++ (codes ";q=" ++ (q_decimal it.q ++ b'\n' ∷ negotiate_print next))
