-- ===== src/Server/Allowed/Methods.antt =====
-- Which methods the Allow header lists, and the bound on its text (src/redhttp/server.c).
use redstore.Base.{
  ℕ, ◌+◌, ◌≤◌, ◌<◌, ◌≡◌, refl, sym, ◌⊎◌, inl, inr, false, none, some, [], ◌∷◌, arith, Bool-cases,
  Str, str_eq, str_eq_iff,
}
use redstore.Server.Allowed.{Slots, add_allowed_method}

-- A method is in a slot.
abbrev pub Listed : Str → Slots → Type 0
Listed m [] = ⊥
Listed m (none ∷ next) = Listed m next
Listed m (some known ∷ next) = (m ≡ known) ⊎ Listed m next

-- The number of free slots.
abbrev pub free_slots : Slots → ℕ
free_slots [] = 0
free_slots (none ∷ next) = 1 + free_slots next
free_slots (some known ∷ next) = free_slots next

-- No method is in two slots.
abbrev pub Distinct : Slots → Type 0
Distinct [] = Unit
Distinct (none ∷ next) = Distinct next
Distinct (some known ∷ next) = (¬ Listed known next) × Distinct next

-- The free slots are the last ones.
abbrev pub Packed : Slots → Type 0
Packed [] = Unit
Packed (none ∷ next) = (m : Str) → ¬ Listed m next
Packed (some known ∷ next) = Packed next

-- How an operation may change the slots: it takes at most `n` free ones, keeps what is listed, and
-- what it adds has the property.
pub record Grown (P : Str → Type 0) (n : ℕ) (slots slots' : Slots) : Type 0 where
  pub packed : Packed slots'
  pub distinct : Distinct slots'
  pub room : free_slots slots ≤ free_slots slots' + n
  pub kept : (x : Str) → Listed x slots → Listed x slots'
  pub fresh : (x : Str) → Listed x slots' → Listed x slots ⊎ P x

Packed-of_unlisted : (slots : Slots) → ((m : Str) → ¬ Listed m slots) → Packed slots
Packed-of_unlisted [] h = tt
Packed-of_unlisted (none ∷ next) h = h
Packed-of_unlisted (some known ∷ next) h = absurd (h known (inl refl))

pub Grown-same :
    (P : Str → Type 0) (slots : Slots) → Packed slots → Distinct slots → Grown P 0 slots slots
Grown-same P slots p d = record {
  packed = p;
  distinct = d;
  room = omega arith;
  kept = λ x h. h;
  fresh = λ x h. inl h;
}

pub Grown-trans :
    (P Q : Str → Type 0) (m n : ℕ) (a b c : Slots)
    → ((x : Str) → P x → Q x)
    → Grown P m a b
    → Grown Q n b c
    → Grown Q (m + n) a c
Grown-trans P Q m n a b c w g h = record {
  packed = h.packed;
  distinct = h.distinct;
  room = omega (arith, g.room, h.room);
  kept = λ x l. h.kept x (g.kept x l);
  fresh = λ x l. elim (h.fresh x l) [
    | inl old ↦ elim (g.fresh x old) [ inl older ↦ inl older | inr new ↦ inr (w x new) ]
    | inr new ↦ inr new
  ];
}

pub Grown-weaken :
    (P Q : Str → Type 0) (m n : ℕ) (a b : Slots)
    → ((x : Str) → P x → Q x)
    → m ≤ n
    → Grown P m a b
    → Grown Q n a b
Grown-weaken P Q m n a b w le g = record {
  packed = g.packed;
  distinct = g.distinct;
  room = omega (arith, g.room);
  kept = g.kept;
  fresh = λ x l. elim (g.fresh x l) [ inl old ↦ inl old | inr new ↦ inr (w x new) ];
}

pub add_allowed_method-Grown :
    (slots : Slots) (m : Str)
    → Packed slots
    → Distinct slots
    → Grown (λ x. x ≡ m) 1 slots (add_allowed_method slots m).0
unfolding add_allowed_method
add_allowed_method-Grown [] m p d =
    Grown-weaken (λ x. x ≡ m) (λ x. x ≡ m) 0 1 [] [] (λ x e. e) (omega arith) (Grown-same _ [] p d)
add_allowed_method-Grown (none ∷ next) m p d = record {
  packed = Packed-of_unlisted next p;
  distinct = (p m, d);
  room = omega arith;
  kept = λ x l. inr l;
  fresh = λ x l. elim l [ inl e ↦ inr e | inr old ↦ inl old ];
}
add_allowed_method-Grown (some known ∷ next) m p (n, d) = elim (Bool-cases (str_eq known m)) [
  | inl same ↦ rw same (
      Grown-weaken (λ x. x ≡ m) (λ x. x ≡ m) 0 1 (some known ∷ next) (some known ∷ next) (λ x e. e)
        (omega arith) (Grown-same _ (some known ∷ next) p (n, d)))
  | inr other ↦
      let ih = add_allowed_method-Grown next m p d in
      rw other (after_known known next (add_allowed_method next m).0 m n other ih)
]
  where
    after_known :
        (known : Str) (next next' : Slots) (m : Str)
        → ¬ Listed known next
        → str_eq known m ≡ false
        → Grown (λ x. x ≡ m) 1 next next'
        → Grown (λ x. x ≡ m) 1 (some known ∷ next) (some known ∷ next')
    after_known known next next' m n other g = record {
      packed = g.packed;
      distinct = (
        λ l. elim (g.fresh known l) [
          | inl old ↦ n old
          | inr same ↦ cc (other, (str_eq_iff known m).1 same)
        ],
        g.distinct,
      );
      room = omega (arith, g.room);
      kept = λ x l. elim l [ inl e ↦ inl e | inr old ↦ inr (g.kept x old) ];
      fresh = λ x l. elim l [
        | inl e ↦ inl (inl e)
        | inr late ↦ elim (g.fresh x late) [ inl old ↦ inl (inr old) | inr new ↦ inr new ]
      ];
    }

-- With a free slot left the method is listed afterwards.
pub add_allowed_method-Listed :
    (slots : Slots) (m : Str) → 0 < free_slots slots → Listed m (add_allowed_method slots m).0
unfolding add_allowed_method
add_allowed_method-Listed [] m h = absurd (omega arith)
add_allowed_method-Listed (none ∷ next) m h = inl refl
add_allowed_method-Listed (some known ∷ next) m h = elim (Bool-cases (str_eq known m)) [
  | inl same ↦ rw same (inl (sym ((str_eq_iff known m).0 same)))
  | inr other ↦ rw other (inr (add_allowed_method-Listed next m h))
]
