-- ===== src/Server/Dispatch/Served.antt =====
-- The statuses of src/redhttp/server.c for the requests that no route fits, and the handlers that decide
-- them.
use redstore.Base.{
  ℕ, ◌≡◌, refl, sym, ap, ◌∙◌, ◌≢◌, ◌↔◌, inl, inr, Bool, true, false, Option, none, some, List, [],
  ◌∷◌, if◌then◌else◌, Bool-cases, Str, codes, str_eq, str_eq_iff,
}
use mathlib.Core.List.{Memᴰ}
use redstore.Server.{Handler}
use redstore.Server.Allowed.{is_path}
use redstore.Server.Dispatch.{has_get, has_path}

pub true-false : {b : Bool} → b ≡ true → b ≡ false → ⊥
true-false h k = cc

-- The status of the answer.
abbrev pub unmatched_status : {W : Type 0} → List (Handler W) → Str → Str → ℕ
unmatched_status handlers method path =
    if str_eq (codes "HEAD") method
    then (if has_get handlers path then 200 else 404)
    else if has_path handlers path
    then (if str_eq (codes "OPTIONS") method then 200 else 405)
    else 404

-- A handler for GET has exactly the path; a handler for any method has it.
abbrev pub GetsPath : {W : Type 0} → List (Handler W) → Str → Type 0
GetsPath {W} handlers path =
    (it : Handler W) × Memᴰ it handlers × (it.method ≡ some (codes "GET")) × (it.path ≡ some path)

abbrev pub ServesPath : {W : Type 0} → List (Handler W) → Str → Type 0
ServesPath {W} handlers path = (it : Handler W) × Memᴰ it handlers × (it.path ≡ some path)

-- The statuses for a request that no route fits.
pub data UnmatchedStatus {W : Type 0} (handlers : List (Handler W)) (method path : Str)
    : ℕ → Type 0 where
  head_found :
      method ≡ codes "HEAD" → GetsPath handlers path → UnmatchedStatus handlers method path 200
  head_missing :
      method ≡ codes "HEAD" → (¬ GetsPath handlers path) → UnmatchedStatus handlers method path 404
  options_listed :
      method ≡ codes "OPTIONS" → ServesPath handlers path → UnmatchedStatus handlers method path 200
  not_allowed :
      method ≢ codes "HEAD"
      → method ≢ codes "OPTIONS"
      → ServesPath handlers path
      → UnmatchedStatus handlers method path 405
  not_found :
      method ≢ codes "HEAD"
      → (¬ ServesPath handlers path)
      → UnmatchedStatus handlers method path 404

is_path_iff : (o : Option Str) (s : Str) → (is_path o s ≡ true) ↔ (o ≡ some s)
is_path_iff none s = (λ e. cc e, λ e. cc e)
is_path_iff (some t) s = (λ e. ap some ((str_eq_iff t s).0 e), λ e. (str_eq_iff t s).1 (cc e))

has_path_iff :
    {W : Type 0} (handlers : List (Handler W)) (path : Str)
    → (has_path handlers path ≡ true) ↔ ServesPath handlers path
unfolding has_path
has_path_iff [] path = (λ e. cc e, λ (it, mem, e). elim mem [ ])
has_path_iff (it ∷ next) path = elim (Bool-cases (is_path it.path path)) [
  | inl here ↦ rw here (λ e. (it, Memᴰ.head refl, (is_path_iff it.path path).0 here), λ s. refl)
  | inr other ↦
      let (to, from) = has_path_iff next path in
      rw other (
        λ e. let (r, mem, er) = to e in (r, Memᴰ.tail mem, er),
        λ (r, mem, er). elim mem [
          | Memᴰ.head same ↦
              absurd
                (true-false ((is_path_iff it.path path).1 (ap (λ h. h.path) (sym same) ∙ er)) other)
          | Memᴰ.tail later ↦ from (r, later, er)
        ],
      )
]

has_get_iff :
    {W : Type 0} (handlers : List (Handler W)) (path : Str)
    → (has_get handlers path ≡ true) ↔ GetsPath handlers path
unfolding has_get
has_get_iff [] path = (λ e. cc e, λ (it, mem, _, _). elim mem [ ])
has_get_iff (it ∷ next) path =
    let (to, from) = has_get_iff next path in
    elim (Bool-cases (is_path it.method (codes "GET"))) [
      | inr other ↦ rw other (
        λ e. let (r, mem, em, ep) = to e in (r, Memᴰ.tail mem, em, ep),
        λ (r, mem, em, ep). elim mem [
          | Memᴰ.head same ↦ absurd (
              true-false
                ((is_path_iff it.method (codes "GET")).1 (ap (λ h. h.method) (sym same) ∙ em))
                other)
          | Memᴰ.tail later ↦ from (r, later, em, ep)
        ],
      )
      | inl gets ↦ elim (Bool-cases (is_path it.path path)) [
        | inl here ↦
            rw (gets, here)
              (
                λ e. (
                  it,
                  Memᴰ.head refl,
                  (is_path_iff it.method (codes "GET")).0 gets,
                  (is_path_iff it.path path).0 here,
                ),
                λ s. refl,
              )
        | inr elsewhere ↦
            rw (gets, elsewhere)
              (
                λ e. let (r, mem, em, ep) = to e in (r, Memᴰ.tail mem, em, ep),
                λ (r, mem, em, ep). elim mem [
                  | Memᴰ.head same ↦ absurd (
                      true-false ((is_path_iff it.path path).1 (ap (λ h. h.path) (sym same) ∙ ep))
                        elsewhere)
                  | Memᴰ.tail later ↦ from (r, later, em, ep)
                ],
              )
      ]
    ]

pub unmatched_status_lem :
    {W : Type 0} (handlers : List (Handler W)) (method path : Str)
    → UnmatchedStatus handlers method path (unmatched_status handlers method path)
unmatched_status_lem handlers method path = elim (Bool-cases (str_eq (codes "HEAD") method)) [
  | inl head ↦
      let is_head = sym ((str_eq_iff (codes "HEAD") method).0 head) in
      elim (Bool-cases (has_get handlers path)) [
        | inl found ↦ rw (head, found) (head_found is_head ((has_get_iff handlers path).0 found))
        | inr missing ↦
            rw (head, missing)
              (head_missing is_head λ s. true-false ((has_get_iff handlers path).1 s) missing)
      ]
  | inr other ↦
      let no_head : method ≢ codes "HEAD" =
        λ e. true-false ((str_eq_iff (codes "HEAD") method).1 (sym e)) other in
      elim (Bool-cases (has_path handlers path)) [
        | inl known ↦ elim (Bool-cases (str_eq (codes "OPTIONS") method)) [
          | inl options ↦
              rw (other, known, options)
                (options_listed (sym ((str_eq_iff (codes "OPTIONS") method).0 options))
                  ((has_path_iff handlers path).0 known))
          | inr no_options ↦
              rw (other, known, no_options)
                (not_allowed no_head
                  (λ e. true-false ((str_eq_iff (codes "OPTIONS") method).1 (sym e)) no_options)
                  ((has_path_iff handlers path).0 known))
        ]
        | inr unknown ↦
            rw (other, unknown)
              (not_found no_head λ s. true-false ((has_path_iff handlers path).1 s) unknown)
      ]
]
