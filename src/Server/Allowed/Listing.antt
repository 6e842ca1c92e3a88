-- ===== src/Server/Allowed/Listing.antt =====
-- Which methods the Allow header of src/redhttp/server.c lists.
use redstore.Base.{
  ℕ, ◌+◌, ◌*◌, ◌≤◌, ◌<◌, ◌≡◌, refl, sym, ap, ◌∙◌, ◌⊎◌, inl, inr, true, ◌&&◌, Option, some, List, [],
  ◌∷◌, arith, if◌then◌else◌, Bool-cases, Str, codes, str_eq,
}
use mathlib.Core.List.{Memᴰ}
use redstore.Server.{Handler}
use redstore.Server.Allowed.{
  Slots, add_allowed_method, initial_slots, add_with_head, serves, add_methods_of, allowed_slots,
}
use redstore.Server.Allowed.Methods.{
  Listed, free_slots, Distinct, Packed, add_allowed_method-Grown, add_allowed_method-Listed,
}
use redstore.Server.Allowed.Brought.{
  BroughtIn, add_methods_of-served, add_methods_of-elsewhere, add_methods_of-Grown,
  allowed_slots-Grown,
}

-- The method of a handler that serves the path is listed, while there is room.
add_with_head-Listed :
    (slots : Slots) (m : Str)
    → Packed slots
    → Distinct slots
    → 0 < free_slots slots
    → Listed m (add_with_head slots m)
unfolding add_with_head
add_with_head-Listed slots m p d room =
    let first = add_allowed_method-Grown slots m p d in
    let there = add_allowed_method-Listed slots m room in
    let slots' = (add_allowed_method slots m).0 in
    elim (Bool-cases ((add_allowed_method slots m).1 && str_eq (codes "GET") m)) [
      | inl get ↦ rw get (
          (add_allowed_method-Grown slots' (codes "HEAD") first.packed first.distinct).kept m there)
      | inr other ↦ rw other there
    ]

-- The number of handlers that serve the path.
abbrev pub served_count : {W : Type 0} → List (Handler W) → Option Str → ℕ
served_count [] path = 0
served_count (it ∷ next) path = (if serves it path then 1 else 0) + served_count next path

-- What one handler leaves of the room for the later ones.
room_after :
    {W : Type 0}
    → (slots : Slots) (it : Handler W) (path : Option Str) (n : ℕ) → Packed slots
    → Distinct slots
    → 2 * ((if serves it path then 1 else 0) + n) ≤ free_slots slots
    → 2 * n ≤ free_slots (add_methods_of slots it path)
room_after slots it path n p d h = elim (Bool-cases (serves it path)) [
  | inl served ↦
      let cost : 2 * (1 + n) ≤ free_slots slots = rw served at h in
      omega (arith, (add_methods_of-Grown it path slots p d).room)
  | inr elsewhere ↦
      let cost : 2 * (0 + n) ≤ free_slots slots = rw elsewhere at h in
      rw (add_methods_of-elsewhere slots it path elsewhere) (omega arith)
]

allowed_slots-Listed :
    {W : Type 0}
    → (slots : Slots) (handlers : List (Handler W)) (path : Option Str) (it : Handler W) (m : Str)
    → Packed slots
    → Distinct slots
    → 2 * served_count handlers path ≤ free_slots slots
    → Memᴰ it handlers
    → it.method ≡ some m
    → serves it path ≡ true
    → Listed m (allowed_slots slots handlers path)
unfolding allowed_slots
allowed_slots-Listed slots [] path it m p d room mem e served = elim mem [ ]
allowed_slots-Listed slots (first ∷ next) path it m p d room (Memᴰ.head same) e served =
    let g = add_methods_of-Grown first path slots p d in
    let slots' = add_methods_of slots first path in
    let here : first.method ≡ some m = ap (λ (h : Handler _). h.method) (sym same) ∙ e in
    let first_served : serves first path ≡ true =
      ap (λ (h : Handler _). serves h path) (sym same) ∙ served in
    let some_room : 2 * (1 + served_count next path) ≤ free_slots slots = rw first_served at room in
    (allowed_slots-Grown slots' next path g.packed g.distinct).kept m (
      rw (add_methods_of-served slots first path m here first_served)
        (add_with_head-Listed slots m p d (omega arith)))
allowed_slots-Listed slots (first ∷ next) path it m p d room (Memᴰ.tail later) e served =
    let g = add_methods_of-Grown first path slots p d in
    allowed_slots-Listed (add_methods_of slots first path) next path it m g.packed g.distinct
      (room_after slots first path (served_count next path) p d room) later e served

initial_slots-Distinct : Packed initial_slots × Distinct initial_slots
initial_slots-Distinct = ((λ m l. l), ((λ l. l), tt))

-- The methods that the Allow header is made of include OPTIONS, and none is listed twice.
allowed_slots-Distinct :
    {W : Type 0}
    → (handlers : List (Handler W)) (path : Option Str)
    → Distinct (allowed_slots initial_slots handlers path)
      × Listed (codes "OPTIONS") (allowed_slots initial_slots handlers path)
allowed_slots-Distinct handlers path =
    let (p, d) = initial_slots-Distinct in
    let g = allowed_slots-Grown initial_slots handlers path p d in
    (g.distinct, g.kept (codes "OPTIONS") (inl refl))

-- A method of the Allow header is OPTIONS, or is brought by a handler that serves the path: it is
-- the handler's method, or HEAD if that is GET.
allowed_slots-BroughtIn :
    {W : Type 0}
    → (handlers : List (Handler W)) (path : Option Str) (x : Str)
    → Listed x (allowed_slots initial_slots handlers path)
    → (x ≡ codes "OPTIONS") ⊎ BroughtIn handlers path x
allowed_slots-BroughtIn handlers path x l =
    let (p, d) = initial_slots-Distinct in
    let g = allowed_slots-Grown initial_slots handlers path p d in
    elim (g.fresh x l) [
      | inl old ↦ elim old [ inl e ↦ inl e | inr nothing ↦ absurd nothing ]
      | inr new ↦ inr new
    ]

-- If at most 24 handlers serve the path, so that the fifty slots suffice, the method of each of them
-- is in the Allow header.
allowed_slots-complete :
    {W : Type 0}
    → (handlers : List (Handler W)) (path : Option Str) (it : Handler W) (m : Str)
    → served_count handlers path ≤ 24
    → Memᴰ it handlers
    → it.method ≡ some m
    → serves it path ≡ true
    → Listed m (allowed_slots initial_slots handlers path)
allowed_slots-complete handlers path it m room mem e served =
    let (p, d) = initial_slots-Distinct in
    allowed_slots-Listed initial_slots handlers path it m p d (omega arith) mem e served
