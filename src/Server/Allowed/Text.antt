-- ===== src/Server/Allowed/Text.antt =====
-- The text of the Allow header of src/redhttp/server.c.
use redstore.Base.{
  ◌+◌, ◌≤◌, ◌<◌, ◌≡◌, refl, inl, inr, ◌&&◌, Option, none, some, List, [], ◌∷◌, ◌++◌, arith, ltb,
  Bool-cases, Option-cases, length, length-append, ok, Str, codes, str_eq,
}
use redstore.Socket.{bufsiz}
use redstore.Server.{Handler}
use redstore.Server.Allowed.{
  Slots, add_allowed_method, initial_slots, add_with_head, serves, add_methods_of, allowed_slots,
  join_methods, allow_text,
}
use redstore.Server.Allowed.Brought.{
  add_methods_of-served, add_methods_of-any, add_methods_of-elsewhere,
}

join_methods-lt :
    (allow_str : Str) (slots : Slots)
    → length allow_str < bufsiz
    → length (join_methods allow_str slots) < bufsiz
unfolding join_methods
join_methods-lt allow_str [] h = h
join_methods-lt allow_str (none ∷ next) h = h
join_methods-lt allow_str (some method ∷ next) h =
    elim (Bool-cases (ltb (length allow_str + length method + 2) bufsiz)) [
      | inl fits ↦ rw fits (
          join_methods-lt (allow_str ++ b',' ∷ method) next
            (ground (arith, length-append allow_str (b',' ∷ method))))
      | inr full ↦ rw full (join_methods-lt allow_str next h)
    ]

-- The first slot stays what it is.
abbrev Begins : Str → Slots → Type 0
Begins k slots = (next : Slots) × (slots ≡ some k ∷ next)

add_allowed_method-Begins :
    (slots : Slots) (k m : Str) → Begins k slots → Begins k (add_allowed_method slots m).0
unfolding add_allowed_method
add_allowed_method-Begins slots k m (next, e) = elim (Bool-cases (str_eq k m)) [
  | inl same ↦ (next, rw (e, add_allowed_method) (rw same))
  | inr other ↦ ((add_allowed_method next m).0, rw (e, add_allowed_method) (rw other))
]

add_methods_of-Begins :
    {W : Type 0}
    → (slots : Slots) (it : Handler W) (path : Option Str) (k : Str) → Begins k slots
    → Begins k (add_methods_of slots it path)
unfolding add_with_head
add_methods_of-Begins slots it path k b = elim (Option-cases it.method) [
  | inl any ↦ rw (add_methods_of-any slots it path any) b
  | inr (m, e) ↦ elim (Bool-cases (serves it path)) [
    | inl served ↦
        let first = add_allowed_method-Begins slots k m b in
        let slots' = (add_allowed_method slots m).0 in
        rw (add_methods_of-served slots it path m e served)
          elim (Bool-cases ((add_allowed_method slots m).1 && str_eq (codes "GET") m)) [
            | inl get ↦
                rw (get, add_with_head) (add_allowed_method-Begins slots' k (codes "HEAD") first)
            | inr other ↦ rw (other, add_with_head) first
          ]
    | inr elsewhere ↦ rw (add_methods_of-elsewhere slots it path elsewhere) b
  ]
]

allowed_slots-Begins :
    {W : Type 0}
    → (slots : Slots) (handlers : List (Handler W)) (path : Option Str) (k : Str) → Begins k slots
    → Begins k (allowed_slots slots handlers path)
unfolding allowed_slots
allowed_slots-Begins slots [] path k b = b
allowed_slots-Begins slots (it ∷ next) path k b =
    allowed_slots-Begins (add_methods_of slots it path) next path k
      (add_methods_of-Begins slots it path k b)

join_methods-ge :
    (allow_str : Str) (slots : Slots) → length allow_str ≤ length (join_methods allow_str slots)
unfolding join_methods
join_methods-ge allow_str [] = omega arith
join_methods-ge allow_str (none ∷ next) = omega arith
join_methods-ge allow_str (some method ∷ next) =
    elim (Bool-cases (ltb (length allow_str + length method + 2) bufsiz)) [
      | inl fits ↦ rw fits (
          omega (
            arith,
            length-append allow_str (b',' ∷ method),
            join_methods-ge (allow_str ++ b',' ∷ method) next,
          ))
      | inr full ↦ rw full (join_methods-ge allow_str next)
    ]

-- Whatever the handlers are, the text of the header is made without a fault, is not empty, and is
-- shorter than the buffer of BUFSIZ + 1 bytes that it is written to.
pub allow_text-lt :
    {W : Type 0}
    → (handlers : List (Handler W)) (path : Option Str)
    → (t : Str) × (allow_text handlers path ≡ ok t) × (0 < length t) × (length t < bufsiz)
unfolding allow_text
allow_text-lt handlers path =
    let (next, e) = allowed_slots-Begins initial_slots handlers path (codes "OPTIONS") (_, refl) in
    (
      join_methods (codes "OPTIONS") next,
      rw (e, allow_text),
      omega (arith, join_methods-ge (codes "OPTIONS") next),
      join_methods-lt (codes "OPTIONS") next (omega arith),
    )
