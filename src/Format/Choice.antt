-- ===== src/Format/Choice.antt =====
-- The format that src/utils.c chooses for an Accept header.
use redstore.Base.{
  ℕ, ◌*◌, ◌≤◌, ◌≡◌, refl, ◌∙◌, inl, inr, true, ◌&&◌, Option, none, some, List, [], ◌∷◌, arith, ltb,
  if◌then◌else◌, Bool-cases, if_true, ok, Str, codes,
}
use mathlib.Core.List.{Memᴰ}
use mathlib.Core.Path.{subst}
use redstore.Headers.{headers_get}
use redstore.Negotiate.{MediaType, compare_types}
use redstore.Negotiate.Double.{Double, negotiate_parse}
use redstore.Request.{Request}
use redstore.Format.{
  Description, Chosen, scores_more, choose_accept, choose_mime, choose_desc, is_choice,
  negotiate_format,
}

-- The choice has at least a score.
abbrev AtLeast : ℕ → Chosen → Type 0
AtLeast n none = ⊥
AtLeast n (some (score, desc, mime)) = n ≤ score

-- The choice is a type of a description that an accepted type matches, with their score.
abbrev IsFrom : List Description → List MediaType → Chosen → Type 0
IsFrom descs accept none = Unit
IsFrom descs accept (some (score, desc, mime)) =
    Memᴰ desc descs
    × ((m : MediaType) × (a : MediaType) × (Memᴰ m desc.mime_types × Memᴰ a accept)
        × (compare_types m.type a.type ≡ true)
        × ((mime ≡ m.type) × (score ≡ m.q * a.q)))

-- One step of the innermost loop.
abbrev step : Description → MediaType → MediaType → Chosen → Chosen
step desc m a best =
    if compare_types m.type a.type && scores_more (m.q * a.q) best
    then some (m.q * a.q, desc, m.type)
    else best

step-keeps :
    (desc : Description) (m a : MediaType) (best : Chosen) (n : ℕ)
    → AtLeast n best
    → AtLeast n (step desc m a best)
step-keeps desc m a none n h = absurd h
step-keeps desc m a (some (score, d, mime)) n h =
    elim (Bool-cases (compare_types m.type a.type && ltb score (m.q * a.q))) [
      | inl more ↦ rw more (ground (arith, more))
      | inr kept ↦ rw kept h
    ]

step-finds :
    (desc : Description) (m a : MediaType) (best : Chosen)
    → compare_types m.type a.type ≡ true
    → AtLeast (m.q * a.q) (step desc m a best)
step-finds desc m a none h = rw h (omega arith)
step-finds desc m a (some (score, d, mime)) h = elim (Bool-cases (ltb score (m.q * a.q))) [
  | inl more ↦ rw h (rw more (omega arith))
  | inr kept ↦ rw h (rw kept (ground arith))
]

-- The loops keep a score that is reached, and reach the score of each match.
choose_accept-keeps :
    (desc : Description) (m : MediaType) (accept : List MediaType) (best : Chosen) (n : ℕ)
    → AtLeast n best
    → AtLeast n (choose_accept desc m accept best)
unfolding choose_accept
choose_accept-keeps desc m [] best n h = h
choose_accept-keeps desc m (a ∷ next) best n h =
    choose_accept-keeps desc m next (step desc m a best) n (step-keeps desc m a best n h)

choose_accept-finds :
    (desc : Description) (m : MediaType) (accept : List MediaType) (best : Chosen) (a : MediaType)
    → Memᴰ a accept
    → compare_types m.type a.type ≡ true
    → AtLeast (m.q * a.q) (choose_accept desc m accept best)
unfolding choose_accept
choose_accept-finds desc m [] best a mem h = elim mem [ ]
choose_accept-finds desc m (b ∷ next) best a (Memᴰ.head e) h =
    let here = step-finds desc m a best h in
    choose_accept-keeps desc m next (step desc m b best) (m.q * a.q)
      (subst (λ x. AtLeast (m.q * a.q) (step desc m x best)) e here)
choose_accept-finds desc m (b ∷ next) best a (Memᴰ.tail later) h =
    choose_accept-finds desc m next (step desc m b best) a later h

choose_mime-keeps :
    (desc : Description) (mimes accept : List MediaType) (best : Chosen) (n : ℕ)
    → AtLeast n best
    → AtLeast n (choose_mime desc mimes accept best)
unfolding choose_mime
choose_mime-keeps desc [] accept best n h = h
choose_mime-keeps desc (m ∷ next) accept best n h =
    choose_mime-keeps desc next accept _ n (choose_accept-keeps desc m accept best n h)

choose_mime-finds :
    (desc : Description) (mimes accept : List MediaType) (best : Chosen) (m a : MediaType)
    → Memᴰ m mimes
    → Memᴰ a accept
    → compare_types m.type a.type ≡ true
    → AtLeast (m.q * a.q) (choose_mime desc mimes accept best)
unfolding choose_mime
choose_mime-finds desc [] accept best m a mem later h = elim mem [ ]
choose_mime-finds desc (k ∷ next) accept best m a (Memᴰ.head e) mem h =
    let here = choose_accept-finds desc m accept best a mem h in
    choose_mime-keeps desc next accept (choose_accept desc k accept best) (m.q * a.q)
      (subst (λ x. AtLeast (m.q * a.q) (choose_accept desc x accept best)) e here)
choose_mime-finds desc (k ∷ next) accept best m a (Memᴰ.tail later) mem h =
    choose_mime-finds desc next accept (choose_accept desc k accept best) m a later mem h

choose_desc-keeps :
    (descs : List Description) (accept : List MediaType) (best : Chosen) (n : ℕ)
    → AtLeast n best
    → AtLeast n (choose_desc descs accept best)
unfolding choose_desc
choose_desc-keeps [] accept best n h = h
choose_desc-keeps (desc ∷ next) accept best n h =
    choose_desc-keeps next accept _ n (choose_mime-keeps desc desc.mime_types accept best n h)

choose_desc-finds :
    (descs : List Description) (accept : List MediaType) (best : Chosen) (desc : Description)
    (m a : MediaType)
    → Memᴰ desc descs
    → Memᴰ m desc.mime_types
    → Memᴰ a accept
    → compare_types m.type a.type ≡ true
    → AtLeast (m.q * a.q) (choose_desc descs accept best)
unfolding choose_desc
choose_desc-finds [] accept best desc m a mem mm ma h = elim mem [ ]
choose_desc-finds (d ∷ next) accept best desc m a (Memᴰ.head e) mm ma h =
    let here = choose_mime-finds desc desc.mime_types accept best m a mm ma h in
    choose_desc-keeps next accept (choose_mime d d.mime_types accept best) (m.q * a.q)
      (subst (λ x. AtLeast (m.q * a.q) (choose_mime x x.mime_types accept best)) e here)
choose_desc-finds (d ∷ next) accept best desc m a (Memᴰ.tail later) mm ma h =
    choose_desc-finds next accept (choose_mime d d.mime_types accept best) desc m a later mm ma h

-- What the loops choose is from the lists.
module _ (descs : List Description) (accept : List MediaType) where
  choose_accept-IsFrom :
      (desc : Description) (m : MediaType) (part : List MediaType) (best : Chosen)
      → Memᴰ desc descs
      → Memᴰ m desc.mime_types
      → ((a : MediaType) → Memᴰ a part → Memᴰ a accept)
      → IsFrom descs accept best
      → IsFrom descs accept (choose_accept desc m part best)
  unfolding choose_accept
  choose_accept-IsFrom desc m [] best dm mm inside h = h
  choose_accept-IsFrom desc m (a ∷ next) best dm mm inside h =
      let here : IsFrom descs accept (step desc m a best) =
        elim (Bool-cases (compare_types m.type a.type && scores_more (m.q * a.q) best)) [
          | inl more ↦
              rw more
                (dm, (m, a, (mm, inside a (Memᴰ.head refl)), ground (arith, more), (refl, refl)))
          | inr kept ↦ rw kept h
        ] in
      choose_accept-IsFrom desc m next (step desc m a best) dm mm
        (λ x later. inside x (Memᴰ.tail later)) here

  choose_mime-IsFrom :
      (desc : Description) (part : List MediaType) (best : Chosen)
      → Memᴰ desc descs
      → ((m : MediaType) → Memᴰ m part → Memᴰ m desc.mime_types)
      → IsFrom descs accept best
      → IsFrom descs accept (choose_mime desc part accept best)
  unfolding choose_mime
  choose_mime-IsFrom desc [] best dm inside h = h
  choose_mime-IsFrom desc (m ∷ next) best dm inside h =
      choose_mime-IsFrom desc next (choose_accept desc m accept best) dm
        (λ x later. inside x (Memᴰ.tail later))
        (choose_accept-IsFrom desc m accept best dm (inside m (Memᴰ.head refl)) (λ a mem. mem) h)

  choose_desc-IsFrom :
      (part : List Description) (best : Chosen)
      → ((desc : Description) → Memᴰ desc part → Memᴰ desc descs)
      → IsFrom descs accept best
      → IsFrom descs accept (choose_desc part accept best)
  unfolding choose_desc
  choose_desc-IsFrom [] best inside h = h
  choose_desc-IsFrom (desc ∷ next) best inside h =
      choose_desc-IsFrom next (choose_mime desc desc.mime_types accept best)
        (λ x later. inside x (Memᴰ.tail later))
        (choose_mime-IsFrom desc desc.mime_types best (inside desc (Memᴰ.head refl)) (λ m mem. mem)
          h)

-- A description with a type of its own, chosen for an accepted type with at least a score.
abbrev pub IsChosen : List Description → List MediaType → ℕ → Description → Str → Type 0
IsChosen descs accept n desc mime =
    Memᴰ desc descs
    × ((m : MediaType) × (a : MediaType) × (Memᴰ m desc.mime_types × Memᴰ a accept)
        × (compare_types m.type a.type ≡ true)
        × ((mime ≡ m.type) × (n ≤ m.q * a.q)))

chosen_lem :
    (descs : List Description) (accept : List MediaType) (n : ℕ) (best : Chosen)
    → AtLeast n best
    → IsFrom descs accept best
    → (score : ℕ) × (desc : Description) × (mime : Str) × (best ≡ some (score, desc, mime))
      × IsChosen descs accept n desc mime
chosen_lem descs accept n none h k = absurd h
chosen_lem descs accept n (some (score, desc, mime)) h (dm, (m, a, mems, match_ok, (em, es))) =
    (score, desc, mime, refl, (dm, (m, a, mems, match_ok, (em, rw es at h))))

module _ (F : Double) where
  -- If a request has no "format" argument, and an Accept header that is a choice, then for each type
  -- of a description that an accepted type matches, the answer is a description with a type of its
  -- own that an accepted type matches too, and whose product of the two qualities is not smaller.
  pub negotiate_format-IsChosen :
      (request : Request) (descs : List Description) (default_format : Option Str)
      (accept_str : Str) (accept : List MediaType) (desc : Description) (m a : MediaType)
      → headers_get request.arguments (codes "format") ≡ none
      → headers_get request.headers (codes "Accept") ≡ some accept_str
      → is_choice accept_str ≡ true
      → negotiate_parse F (some accept_str) ≡ ok accept
      → Memᴰ desc descs
      → Memᴰ m desc.mime_types
      → Memᴰ a accept
      → compare_types m.type a.type ≡ true
      → (best : Description) × (mime : Str) × (negotiate_format F request descs default_format
          ≡ ok (some (best, some mime)))
        × IsChosen descs accept (m.q * a.q) best mime
  unfolding negotiate_format
  negotiate_format-IsChosen request descs default_format accept_str accept desc m a no_arg header
        choice parsed dm mm ma match_ok =
      let reached = choose_desc-finds descs accept none desc m a dm mm ma match_ok in
      let from = choose_desc-IsFrom descs accept descs none (λ d mem. mem) tt in
      let (score, best, mime, e, chosen) = chosen_lem descs accept (m.q * a.q) _ reached from in
      (best, mime, rw no_arg (rw header (if_true _ _ _ choice ∙ rw parsed (rw e refl))), chosen)
