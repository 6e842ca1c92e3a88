-- ===== src/Negotiate/Choose.antt =====
-- Which type `redhttp_negotiate_choose` finds (src/redhttp/negotiate.c).
use redstore.Base.{
  ℕ, ◌*◌, ◌≤◌, ◌≡◌, refl, sym, ◌↔◌, ◌⊎◌, inl, inr, true, false, ◌&&◌, none, some, List, [], ◌∷◌,
  arith, Bool-cases, All, All-mem, Str,
}
use mathlib.Core.List.{Memᴰ}
use mathlib.Core.Path.{subst}
use redstore.Negotiate.{
  MediaType, compare_types, Best, best_type, improves, choose_client, choose_server,
  negotiate_choose,
}
use redstore.Negotiate.Sort.{AtMost, Descending}

-- A score is reached if the best is at least as high.
abbrev Reached : Best → ℕ → Type 0
Reached none n = ⊥
Reached (some (best_score, type)) n = n ≤ best_score

-- No client type that fits does better than the best.
abbrev Covered : MediaType → Best → List MediaType → Type 0
Covered s best client =
    All (λ c. compare_types s.type c.type ≡ true → Reached best (s.q * c.q)) client

Reached-of_not : (best : Best) (n : ℕ) → improves n best ≡ false → Reached best n
Reached-of_not none n h = cc
Reached-of_not (some (b, t)) n h = ground arith

improves-Reached : (best : Best) (n m : ℕ) → improves n best ≡ true → Reached best m → m ≤ n
improves-Reached none n m h r = absurd r
improves-Reached (some (b, t)) n m h r = ground arith

choose_client-better :
    (s c : MediaType) (next : List MediaType) (best : Best)
    → (compare_types s.type c.type && improves (s.q * c.q) best) ≡ true
    → choose_client s (c ∷ next) best ≡ some (s.q * c.q, s.type)
unfolding choose_client
choose_client-better s c next best h = rw h

choose_client-worse :
    (s c : MediaType) (next : List MediaType) (best : Best)
    → (compare_types s.type c.type && improves (s.q * c.q) best) ≡ false
    → choose_client s (c ∷ next) best ≡ choose_client s next best
unfolding choose_client
choose_client-worse s c next best h = rw h

choose_client-Reached :
    (s : MediaType) (client : List MediaType) (best : Best) (n : ℕ)
    → Reached best n
    → Reached (choose_client s client best) n
unfolding choose_client
choose_client-Reached s [] best n r = r
choose_client-Reached s (c ∷ next) best n r =
    elim (Bool-cases (compare_types s.type c.type && improves (s.q * c.q) best)) [
      | inl better ↦ rw better (improves-Reached best (s.q * c.q) n (ground arith) r)
      | inr worse ↦ rw worse (choose_client-Reached s next best n r)
    ]

Covered-AtMost :
    (s : MediaType) (score x : ℕ) (type : Str) (client : List MediaType)
    → AtMost x client
    → s.q * x ≤ score
    → Covered s (some (score, type)) client
Covered-AtMost s score x type [] h k = tt
Covered-AtMost s score x type (c ∷ next) (p, h) k =
    (λ e. grind arith, Covered-AtMost s score x type next h k)

choose_client-Covered :
    (s : MediaType) (client : List MediaType) (best : Best)
    → Descending client
    → Covered s (choose_client s client best) client
choose_client-Covered s [] best d = tt
choose_client-Covered s (c ∷ next) best (p, d) =
    elim (Bool-cases (compare_types s.type c.type && improves (s.q * c.q) best)) [
      | inl better ↦
          subst (λ b. Covered s b (c ∷ next)) (sym (choose_client-better s c next best better))
            (λ e. omega arith, Covered-AtMost s (s.q * c.q) c.q s.type next p (omega arith))
      | inr worse ↦
          subst (λ b. Covered s b (c ∷ next)) (sym (choose_client-worse s c next best worse))
            (
              λ e.
                  choose_client-Reached s next best (s.q * c.q)
                    (Reached-of_not best (s.q * c.q) (ground arith)),
              choose_client-Covered s next best d,
            )
    ]

-- The pair that a score comes from.
abbrev pub Scored : List MediaType → List MediaType → ℕ → Str → Type 0
Scored server client n t =
    (s : MediaType) × (c : MediaType) × Memᴰ s server
    × Memᴰ c client
    × (compare_types s.type c.type ≡ true)
    × (n ≡ s.q * c.q)
    × (t ≡ s.type)

choose_client-origin :
    (s : MediaType) (client : List MediaType) (best : Best) {n : ℕ} {t : Str}
    → choose_client s client best ≡ some (n, t)
    → (best ≡ some (n, t))
      ⊎ ((c : MediaType) × Memᴰ c client
          × (compare_types s.type c.type ≡ true)
          × (n ≡ s.q * c.q)
          × (t ≡ s.type))
unfolding choose_client
choose_client-origin s [] best e = inl e
choose_client-origin s (c ∷ next) best e =
    elim (Bool-cases (compare_types s.type c.type && improves (s.q * c.q) best)) [
      | inl better ↦ inr (c, Memᴰ.head refl, ground arith, ground arith, ground arith)
      | inr worse ↦ elim (choose_client-origin s next best (ground arith)) [
        | inl old ↦ inl old
        | inr (d, m, f, en, et) ↦ inr (d, Memᴰ.tail m, f, en, et)
      ]
    ]

-- The two loops ------------------------------------------------------------------------------------

choose_server-Reached :
    (server client : List MediaType) (best : Best) (n : ℕ)
    → Reached best n
    → Reached (choose_server server client best) n
unfolding choose_server
choose_server-Reached [] client best n r = r
choose_server-Reached (s ∷ next) client best n r =
    choose_server-Reached next client _ n (choose_client-Reached s client best n r)

Covered_trans :
    (s : MediaType) (best best' : Best) (client : List MediaType)
    → ((n : ℕ) → Reached best n → Reached best' n)
    → Covered s best client
    → Covered s best' client
Covered_trans s best best' [] h k = tt
Covered_trans s best best' (c ∷ next) h (p, k) =
    (λ e. h _ (p e), Covered_trans s best best' next h k)

choose_server-Covered :
    (server client : List MediaType) (best : Best)
    → Descending client
    → All (λ s. Covered s (choose_server server client best) client) server
unfolding choose_server
choose_server-Covered [] client best d = tt
choose_server-Covered (s ∷ next) client best d = (
  Covered_trans s (choose_client s client best) _ client
      (choose_server-Reached next client (choose_client s client best))
      (choose_client-Covered s client best d),
  choose_server-Covered next client (choose_client s client best) d,
)

choose_server-origin :
    (server client : List MediaType) (best : Best) {n : ℕ} {t : Str}
    → choose_server server client best ≡ some (n, t)
    → (best ≡ some (n, t)) ⊎ Scored server client n t
unfolding choose_server
choose_server-origin [] client best e = inl e
choose_server-origin (s ∷ next) client best e =
    elim (choose_server-origin next client (choose_client s client best) e) [
      | inl here ↦ elim (choose_client-origin s client best here) [
        | inl old ↦ inl old
        | inr (c, m, f, en, et) ↦ inr (s, c, Memᴰ.head refl, m, f, en, et)
      ]
      | inr (s', c, ms, m, f, en, et) ↦ inr (s', c, Memᴰ.tail ms, m, f, en, et)
    ]

-- No pair of a server's type and a client's type that fit has a higher product of qualities.
abbrev pub IsBest : List MediaType → List MediaType → ℕ → Type 0
IsBest server client n =
    All (λ s. All (λ c. compare_types s.type c.type ≡ true → s.q * c.q ≤ n) client) server

-- No type of the server fits a type of the client.
abbrev pub NoneFits : List MediaType → List MediaType → Type 0
NoneFits server client = All (λ s. All (λ c. ¬ (compare_types s.type c.type ≡ true)) client) server

best_of_choice :
    (server client : List MediaType) (best : Best)
    → choose_server server client none ≡ best
    → Descending client
    → All (λ s. Covered s best client) server
best_of_choice server client best e d = rw e at (choose_server-Covered server client none d)

-- For client types in descending order, as the parser leaves them: the choice is a type of the
-- server that fits a type of the client, and no pair that fits has a higher product of qualities.
pub negotiate_choose-IsBest :
    (server client : List MediaType) (t : Str)
    → Descending client
    → negotiate_choose server client ≡ some t
    → (n : ℕ) × Scored server client n t × IsBest server client n
unfolding negotiate_choose
negotiate_choose-IsBest server client t d e = go (choose_server server client none) refl e
  where
    go :
        (best : Best)
        → choose_server server client none ≡ best
        → best_type best ≡ some t
        → (n : ℕ) × Scored server client n t × IsBest server client n
    go none eb et = cc
    go (some (n, u)) eb et = elim (choose_server-origin server client none eb) [
      | inl old ↦ cc
      | inr (s, c, ms, mc, fits, en, eu) ↦
          (n, (s, c, ms, mc, fits, en, cc), best_of_choice server client (some (n, u)) eb d)
    ]

-- NULL is returned exactly when no type of the server fits a type of the client.
negotiate_choose-none_iff :
    (server client : List MediaType)
    → Descending client
    → (negotiate_choose server client ≡ none) ↔ NoneFits server client
unfolding negotiate_choose
negotiate_choose-none_iff server client d = (
  λ e. to (choose_server server client none) refl e,
  λ h. from (choose_server server client none) refl h,
)
  where
    to :
        (best : Best)
        → choose_server server client none ≡ best
        → best_type best ≡ none
        → NoneFits server client
    to none eb e = best_of_choice server client none eb d
    to (some (n, u)) eb e = cc

    from :
        (best : Best)
        → choose_server server client none ≡ best
        → NoneFits server client
        → best_type best ≡ none
    from none eb h = refl
    from (some (n, u)) eb h = elim (choose_server-origin server client none eb) [
      | inl old ↦ cc
      | inr (s, c, ms, mc, fits, en, eu) ↦ absurd (All-mem _ client (All-mem _ server h ms) mc fits)
    ]
