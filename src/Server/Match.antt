-- ===== src/Server/Match.antt =====
-- Which requests a route matches (src/redhttp/server.c).
use redstore.Base.{
  ℕ, ◌≡◌, refl, sym, ap, ◌∙◌, ◌≢◌, ◌↔◌, ◌⊎◌, inl, inr, Bool, true, false, Option, none, some, [],
  ◌∷◌, ◌++◌, append-nil, arith, ◌==◌, Bool-cases, length, drop, drop-append_length, Result, ok, Str,
  str_eq, str_eq_iff, strn_eq,
}
use redstore.Request.{Request, null, live, freed}
use redstore.Request.Setters.{set_path_glob, stored_glob}
use redstore.Server.{Handler, glob_stem, method_matches, stem_matches, path_matches, match_route}

-- What a route stands for: its method, or any; its path, any, or all that begin with the text before
-- the asterisk.
abbrev pub MethodFits : Option Str → Str → Type 0
MethodFits none asked = Unit
MethodFits (some method) asked = method ≡ asked

abbrev pub PathFits : Option Str → Str → Type 0
PathFits none path = Unit
PathFits (some pattern) path =
    (pattern ≡ path)
    ⊎ ((stem : Str) × (rest : Str) × (pattern ≡ stem ++ b'*' ∷ []) × (path ≡ stem ++ rest))

-- A request as it is before the first route that matches.
pub record IsReadable (request : Request) (asked path : Str) : Type 0 where
  pub method_read : request.method ≡ some asked
  pub path_read : request.path ≡ some path
  pub no_glob : request.path_glob ≡ null

not_starred : (c : ℕ) → c ≢ b'*' → (stem : Str) → c ∷ [] ≢ stem ++ b'*' ∷ []
not_starred c h [] e = h cc
not_starred c h (x ∷ []) e = cc e
not_starred c h (x ∷ y ∷ stem) e = cc e

not_starred_cons :
    (c d : ℕ) (s : Str)
    → ((stem : Str) → d ∷ s ≢ stem ++ b'*' ∷ [])
    → (stem : Str) → c ∷ d ∷ s ≢ stem ++ b'*' ∷ []
not_starred_cons c d s h [] e = cc e
not_starred_cons c d s h (x ∷ stem) e = h stem (cc e)

glob_stem_cases :
    (c : ℕ) (s : Str)
    → ((stem : Str) × (glob_stem (c ∷ s) ≡ ok (some stem)) × (c ∷ s ≡ stem ++ b'*' ∷ []))
      ⊎ ((glob_stem (c ∷ s) ≡ ok none) × ((stem : Str) → c ∷ s ≢ stem ++ b'*' ∷ []))
unfolding glob_stem
glob_stem_cases c [] = elim (Bool-cases (c == b'*')) [
  | inl star ↦ inl ([], rw star, ground arith)
  | inr other ↦ inr (rw other, not_starred c (ground arith))
]
glob_stem_cases c (d ∷ s) = elim (glob_stem_cases d s) [
  | inl (stem, e, es) ↦ inl (c ∷ stem, rw e, ap (λ t. c ∷ t) es)
  | inr (e, no_stem) ↦ inr (rw e, not_starred_cons c d s no_stem)
]

strn_eq_prefix :
    (stem path : Str)
    → (strn_eq (length stem) stem path ≡ true) ↔ ((rest : Str) × (path ≡ stem ++ rest))
unfolding strn_eq
strn_eq_prefix [] path = (λ _. (path, refl), λ _. refl)
strn_eq_prefix (c ∷ stem) [] = (λ e. cc, λ (rest, e). cc)
strn_eq_prefix (c ∷ stem) (d ∷ path) = (
  λ e. let (rest, er) = (strn_eq_prefix stem path).0 (ground arith) in (rest, ground arith),
  λ (rest, e). ground (arith, (strn_eq_prefix stem path).1 (rest, cc)),
)

drop-stem : (stem rest : Str) → drop (length stem) (stem ++ rest) ≡ rest
drop-stem stem rest = drop-append_length stem rest

-- What a match of the path decides, and what it leaves in the request.
abbrev PathOutcome : Option Str → Str → Request → Result (Bool × Request) → Type 0
PathOutcome pattern path request r =
    ((request' : Request) × (r ≡ ok (true, request'))
      × PathFits pattern path
      × (request'.method ≡ request.method)
      × (request'.path ≡ request.path))
    ⊎ ((r ≡ ok (false, request)) × (¬ PathFits pattern path))

snoc-injective : (s t : Str) → s ++ b'*' ∷ [] ≡ t ++ b'*' ∷ [] → s ≡ t
snoc-injective [] [] e = refl
snoc-injective [] (d ∷ []) e = cc e
snoc-injective [] (d ∷ d' ∷ t) e = cc e
snoc-injective (c ∷ []) [] e = cc e
snoc-injective (c ∷ c' ∷ s) [] e = cc e
snoc-injective (c ∷ s) (d ∷ t) e = let ih = snoc-injective s t cc in cc (e, ih)

not_str_eq : (s t : Str) → s ≢ t → str_eq s t ≡ false
not_str_eq s t h = ground (arith, str_eq_iff s t)

true≢false-of : {b : Bool} → b ≡ true → b ≡ false → ⊥
true≢false-of h k = cc

-- The request with the glob that a match leaves.
abbrev with_glob : Request → Str → Request
with_glob request rest = record request { path_glob = stored_glob null rest }

set_path_glob-fresh :
    (request : Request) (rest : Str)
    → request.path_glob ≡ null
    → set_path_glob request rest ≡ ok (with_glob request rest)
unfolding set_path_glob
set_path_glob-fresh request rest h = ground arith

module _ (c : ℕ) (s : Str) (request : Request) (asked path : Str)
    (h : IsReadable request asked path) where
  path_matches-starts :
      (stem : Str)
      → glob_stem (c ∷ s) ≡ ok (some stem)
      → strn_eq (length stem) stem path ≡ true
      → path_matches (some (c ∷ s)) request ≡ ok (true, with_glob request (drop (length stem) path))
  unfolding path_matches
  path_matches-starts stem e starts =
      ground (arith, h.path_read, set_path_glob-fresh request (drop (length stem) path) h.no_glob)

  path_matches-other :
      (stem : Option Str)
      → glob_stem (c ∷ s) ≡ ok stem
      → stem_matches stem path ≡ false
      → path_matches (some (c ∷ s)) request ≡ ok (str_eq (c ∷ s) path, request)
  unfolding path_matches
  path_matches-other stem e other = ground (arith, h.path_read)

  path_matches_lem : PathOutcome (some (c ∷ s)) path request (path_matches (some (c ∷ s)) request)
  path_matches_lem = elim (glob_stem_cases c s) [
    | inl (stem, e, es) ↦
        let (to, from) = strn_eq_prefix stem path in
        elim (Bool-cases (strn_eq (length stem) stem path)) [
          | inl starts ↦
              let (rest, er) = to starts in
              inl (
                with_glob request (drop (length stem) path),
                path_matches-starts stem e starts,
                inr (stem, rest, es, er),
                refl,
                refl,
              )
          | inr other ↦
              let no_start =
                λ (rest : Str) (er : path ≡ stem ++ rest). true≢false-of (from (rest, er)) other in
              let differs : str_eq (c ∷ s) path ≡ false =
                not_str_eq (c ∷ s) path (λ same. no_start (b'*' ∷ []) (sym same ∙ es)) in
              inr (
                rw differs at (path_matches-other (some stem) e other),
                λ fits. elim fits [
                  | inl same ↦ no_start (b'*' ∷ []) (sym same ∙ es)
                  | inr (stem', rest, es', er) ↦
                      no_start rest
                        (er ∙ ap (λ x. x ++ rest) (sym (snoc-injective stem stem' (sym es ∙ es'))))
                ],
              )
        ]
    | inr (e, no_stem) ↦
        let step = path_matches-other none e refl in
        elim (Bool-cases (str_eq (c ∷ s) path)) [
          | inl same ↦
              inl (request, rw same at step, inl ((str_eq_iff (c ∷ s) path).0 same), refl, refl)
          | inr other ↦ inr (
            rw other at step,
            λ fits. elim fits [
              | inl same ↦ cc (other, (str_eq_iff (c ∷ s) path).1 same)
              | inr (stem, rest, es, er) ↦ no_stem stem es
            ],
          )
        ]
  ]

path_matches-cases :
    (pattern : Option Str) (request : Request) (asked path : Str)
    → IsReadable request asked path
    → pattern ≢ some []
    → PathOutcome pattern path request (path_matches pattern request)
path_matches-cases none request asked path h k =
    inl (request, unfold path_matches in refl, tt, refl, refl)
path_matches-cases (some []) request asked path h k = absurd (k refl)
path_matches-cases (some (c ∷ s)) request asked path h k = path_matches_lem c s request asked path h

method_matches-cases :
    (method : Option Str) (request : Request) (asked : Str)
    → request.method ≡ some asked
    → ((method_matches method request ≡ ok true) × MethodFits method asked)
      ⊎ ((method_matches method request ≡ ok false) × ¬ MethodFits method asked)
unfolding method_matches
method_matches-cases none request asked h = inl (refl, tt)
method_matches-cases (some method) request asked h = ground (arith, str_eq_iff method asked)

-- A route matches a request, of which no glob is set yet, exactly if its method and its path fit; a
-- path of no bytes, which the code reads outside of, is excluded. A match keeps the method and the
-- path of the request, and no match changes nothing.
pub match_route_lem :
    {W : Type 0}
    → (it : Handler W) (request : Request) (asked path : Str) → IsReadable request asked path
    → it.path ≢ some []
    → ((request' : Request) × (match_route it request ≡ ok (true, request'))
        × (MethodFits it.method asked × PathFits it.path path)
        × (request'.method ≡ some asked)
        × (request'.path ≡ some path))
      ⊎ ((match_route it request ≡ ok (false, request))
          × ¬ (MethodFits it.method asked × PathFits it.path path))
unfolding match_route
match_route_lem it request asked path h k =
    elim (method_matches-cases it.method request asked h.method_read) [
      | inl (e, fits) ↦ elim (path_matches-cases it.path request asked path h k) [
        | inl (request', ep, path_fits, em, er) ↦ inl (
          request',
          rw (e, match_route) ep,
          (fits, path_fits),
          em ∙ h.method_read,
          er ∙ h.path_read,
        )
        | inr (ep, no_path) ↦ inr (rw (e, match_route) ep, λ f. no_path f.1)
      ]
      | inr (e, no_method) ↦ inr (rw (e, match_route), λ f. no_method f.0)
    ]

glob_stem-starred : (stem : Str) → glob_stem (stem ++ b'*' ∷ []) ≡ ok (some stem)
unfolding glob_stem
glob_stem-starred [] = refl
glob_stem-starred (c ∷ []) = refl
glob_stem-starred (c ∷ d ∷ s) = rw (glob_stem-starred (d ∷ s))

drop-all : (s : Str) → drop (length s) s ≡ []
drop-all [] = refl
drop-all (c ∷ s) = drop-all s

-- A glob that matches with nothing left after another one has matched leaves the old pointer, which
-- has been freed.
pub path_matches-freed_glob :
    (request : Request) (stem old : Str)
    → request.path ≡ some stem
    → request.path_glob ≡ live old
    → (request' : Request) × (path_matches (some (stem ++ b'*' ∷ [])) request ≡ ok (true, request'))
      × (request'.path_glob ≡ freed)
unfolding path_matches set_path_glob
path_matches-freed_glob request stem old h k = (
  record request { path_glob = freed },
  ground (
    arith,
    glob_stem-starred stem,
    (strn_eq_prefix stem stem).1 ([], sym (append-nil stem)),
    drop-all stem,
  ),
  refl,
)
