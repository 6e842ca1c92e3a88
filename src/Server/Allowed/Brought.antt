-- ===== src/Server/Allowed/Brought.antt =====
-- What the handlers bring into the array of methods of src/redhttp/server.c.
use redstore.Base.{
  ◌+◌, ◌*◌, ◌≡◌, ◌⊎◌, inl, inr, true, false, ◌&&◌, Option, none, some, List, [], ◌∷◌, arith,
  Bool-cases, Option-cases, length, Str, codes, str_eq, str_eq_iff,
}
use redstore.Server.{Handler}
use redstore.Server.Allowed.{
  Slots, add_allowed_method, add_with_head, serves, add_methods_of, allowed_slots,
}
use redstore.Server.Allowed.Methods.{
  Distinct, Packed, Grown, Grown-trans, Grown-weaken, Grown-same, add_allowed_method-Grown,
}

-- A method brings itself, and GET brings HEAD.
abbrev pub BroughtBy : Str → Str → Type 0
BroughtBy m x = (x ≡ m) ⊎ ((codes "GET" ≡ m) × (x ≡ codes "HEAD"))

add_with_head-Grown :
    (slots : Slots) (m : Str)
    → Packed slots
    → Distinct slots
    → Grown (BroughtBy m) 2 slots (add_with_head slots m)
unfolding add_with_head
add_with_head-Grown slots m p d =
    let first = add_allowed_method-Grown slots m p d in
    let slots' = (add_allowed_method slots m).0 in
    elim (Bool-cases ((add_allowed_method slots m).1 && str_eq (codes "GET") m)) [
      | inl get ↦
          let is_get : codes "GET" ≡ m = (str_eq_iff (codes "GET") m).0 (ground arith) in
          rw get (
            Grown-trans (λ x. x ≡ m) (BroughtBy m) 1 1 slots slots'
              (add_allowed_method slots' (codes "HEAD")).0 (λ x e. inl e) first
              (Grown-weaken (λ x. x ≡ codes "HEAD") (BroughtBy m) 1 1 slots'
                (add_allowed_method slots' (codes "HEAD")).0 (λ x e. inr (is_get, e)) (omega arith)
                (add_allowed_method-Grown slots' (codes "HEAD") first.packed first.distinct)))
      | inr other ↦ rw other (
          Grown-weaken (λ x. x ≡ m) (BroughtBy m) 1 2 slots slots' (λ x e. inl e) (omega arith)
            first)
    ]

-- A handler brings methods if it has one and serves the path.
abbrev pub Brings : {W : Type 0} → Handler W → Option Str → Str → Type 0
Brings it path x = (m : Str) × (it.method ≡ some m) × (serves it path ≡ true) × BroughtBy m x

pub add_methods_of-served :
    {W : Type 0}
    → (slots : Slots) (it : Handler W) (path : Option Str) (m : Str) → it.method ≡ some m
    → serves it path ≡ true
    → add_methods_of slots it path ≡ add_with_head slots m
unfolding add_methods_of
add_methods_of-served slots it path m e h = ground arith

pub add_methods_of-any :
    {W : Type 0}
    → (slots : Slots) (it : Handler W) (path : Option Str) → it.method ≡ none
    → add_methods_of slots it path ≡ slots
unfolding add_methods_of
add_methods_of-any slots it path e = ground arith

pub add_methods_of-elsewhere :
    {W : Type 0}
    → (slots : Slots) (it : Handler W) (path : Option Str) → serves it path ≡ false
    → add_methods_of slots it path ≡ slots
unfolding add_methods_of
add_methods_of-elsewhere slots it path e = ground arith

module _ {W : Type 0} (it : Handler W) (path : Option Str) (slots : Slots) (p : Packed slots)
    (d : Distinct slots) where
  unchanged-Grown : Grown (Brings it path) 2 slots slots
  unchanged-Grown =
      Grown-weaken (Brings it path) (Brings it path) 0 2 slots slots (λ x b. b) (omega arith)
        (Grown-same (Brings it path) slots p d)

  pub add_methods_of-Grown : Grown (Brings it path) 2 slots (add_methods_of slots it path)
  add_methods_of-Grown = elim (Option-cases it.method) [
    | inl any ↦ rw (add_methods_of-any slots it path any) unchanged-Grown
    | inr (m, e) ↦ elim (Bool-cases (serves it path)) [
      | inl served ↦ rw (add_methods_of-served slots it path m e served) (
          Grown-weaken (BroughtBy m) (Brings it path) 2 2 slots (add_with_head slots m)
            (λ x b. (m, e, served, b)) (omega arith) (add_with_head-Grown slots m p d))
      | inr elsewhere ↦ rw (add_methods_of-elsewhere slots it path elsewhere) unchanged-Grown
    ]
  ]

-- What some handler of the list brings.
abbrev pub BroughtIn : {W : Type 0} → List (Handler W) → Option Str → Str → Type 0
BroughtIn [] path x = ⊥
BroughtIn (it ∷ next) path x = Brings it path x ⊎ BroughtIn next path x

pub allowed_slots-Grown :
    {W : Type 0}
    → (slots : Slots) (handlers : List (Handler W)) (path : Option Str) → Packed slots
    → Distinct slots
    → Grown
        (BroughtIn handlers path)
        (2 * length handlers)
        slots
        (allowed_slots slots handlers path)
unfolding allowed_slots
allowed_slots-Grown slots [] path p d =
    Grown-weaken (λ x. ⊥) (λ x. ⊥) 0 0 slots slots (λ x b. b) (omega arith)
      (Grown-same (λ x. ⊥) slots p d)
allowed_slots-Grown slots (it ∷ next) path p d =
    let first = add_methods_of-Grown it path slots p d in
    let slots' = add_methods_of slots it path in
    let rest = allowed_slots-Grown slots' next path first.packed first.distinct in
    Grown-weaken (BroughtIn (it ∷ next) path) (BroughtIn (it ∷ next) path) (2 + 2 * length next)
      (2 * length (it ∷ next)) slots (allowed_slots slots' next path) (λ x b. b) (omega arith)
      (Grown-trans (Brings it path) (BroughtIn (it ∷ next) path) 2 (2 * length next) slots slots'
        (allowed_slots slots' next path) (λ x b. inl b) first
        (Grown-weaken (BroughtIn next path) (BroughtIn (it ∷ next) path) (2 * length next)
          (2 * length next) slots' (allowed_slots slots' next path) (λ x b. inr b) (omega arith)
          rest))
