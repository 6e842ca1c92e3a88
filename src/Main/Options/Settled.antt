-- ===== src/Main/Options/Settled.antt =====
-- What the options of src/redstore.c settle.
use redstore.Base.{
  ◌≡◌, refl, sym, ap, ◌∙◌, inl, inr, false, ◌&&◌, Option, none, some, List, [], ◌∷◌, Bool-cases,
  All, ok, >>=-eq-ok, ok-injective, Str, codes,
}
use redstore.Main.Options.{
  Opt, port_opt, address_opt, storage_opt, options_opt, file_opt, format_opt, new_opt, verbose_opt,
  quiet_opt, other_opt, Settings, set_option, set_options, set_name, check_noise, with_defaults,
  default_storage, default_name, initial_settings, parse_arguments_of,
}

-- Is the option one that sets the type of the storage?
abbrev pub NoType : Opt → Type 0
NoType (storage_opt optarg) = ⊥
NoType opt = Unit

set_option-NoType :
    (s s' : Settings) (opt : Opt)
    → NoType opt
    → set_option s opt ≡ ok s'
    → s'.storage_type ≡ s.storage_type
unfolding set_option
set_option-NoType s s' (port_opt a) h e = ap (λ q. q.storage_type) (sym (ok-injective e))
set_option-NoType s s' (address_opt a) h e = ap (λ q. q.storage_type) (sym (ok-injective e))
set_option-NoType s s' (storage_opt a) h e = absurd h
set_option-NoType s s' (options_opt a) h e = ap (λ q. q.storage_type) (sym (ok-injective e))
set_option-NoType s s' (file_opt a) h e = ap (λ q. q.storage_type) (sym (ok-injective e))
set_option-NoType s s' (format_opt a) h e = ap (λ q. q.storage_type) (sym (ok-injective e))
set_option-NoType s s' new_opt h e = ap (λ q. q.storage_type) (sym (ok-injective e))
set_option-NoType s s' verbose_opt h e = ap (λ q. q.storage_type) (sym (ok-injective e))
set_option-NoType s s' quiet_opt h e = ap (λ q. q.storage_type) (sym (ok-injective e))
set_option-NoType s s' other_opt h e = cc e

set_options-NoType :
    (s s' : Settings) (opts : List Opt)
    → All NoType opts
    → set_options s opts ≡ ok s'
    → s'.storage_type ≡ s.storage_type
unfolding set_options
set_options-NoType s s' [] h e = ap (λ q. q.storage_type) (sym (ok-injective e))
set_options-NoType s s' (opt ∷ next) (h, rest) e =
    let (s1, e1, e2) = >>=-eq-ok (set_option s opt) _ e in
    set_options-NoType s1 s' next rest e2 ∙ set_option-NoType s s1 opt h e1

set_name-type :
    (s s' : Settings) (names : List Str)
    → set_name s names ≡ ok s'
    → s'.storage_type ≡ s.storage_type
set_name-type s s' [] e = ap (λ q. q.storage_type) (sym (ok-injective e))
set_name-type s s' (name ∷ []) e = ap (λ q. q.storage_type) (sym (ok-injective e))
set_name-type s s' (name ∷ other ∷ names) e = cc e

check_noise_lem :
    (s s' : Settings) → check_noise s ≡ ok s' → (s ≡ s') × ((s.quiet && s.verbose) ≡ false)
check_noise_lem s s' e = elim (Bool-cases (s.quiet && s.verbose)) [
  | inl noisy ↦ cc (rw noisy at e)
  | inr calm ↦ (ok-injective (rw calm at e), calm)
]

-- The steps of the options that are accepted.
abbrev Accepted : List Opt → List Str → Settings → Type 0
Accepted opts names s =
    (given : Settings) × (named : Settings) × (set_options initial_settings opts ≡ ok given)
    × (set_name given names ≡ ok named)
    × ((named.quiet && named.verbose) ≡ false)
    × (s ≡ with_defaults named)

accepted :
    (opts : List Opt) (names : List Str) (s : Settings)
    → parse_arguments_of opts names ≡ ok s
    → Accepted opts names s
unfolding parse_arguments_of
accepted opts names s e =
    let (given, e1, r1) = >>=-eq-ok (set_options initial_settings opts) _ e in
    let (named, e2, r2) = >>=-eq-ok (set_name given names) _ r1 in
    let (checked, e3, r3) = >>=-eq-ok (check_noise named) _ r2 in
    let (same, calm) = check_noise_lem named checked e3 in
    (given, named, e1, e2, calm, sym (ok-injective r3) ∙ ap with_defaults (sym same))

default_storage-noise :
    (type : Option Str) (s : Settings)
    → ((default_storage type s).quiet ≡ s.quiet)
      × ((default_storage type s).verbose ≡ s.verbose)
      × ((default_storage type s).storage_name ≡ s.storage_name)
default_storage-noise none s = (refl, refl, refl)
default_storage-noise (some type) s = (refl, refl, refl)

default_storage-type :
    (type : Option Str) (s : Settings)
    → s.storage_type ≡ type
    → (t : Str) × ((default_storage type s).storage_type ≡ some t)
default_storage-type none s e = (codes "hashes", refl)
default_storage-type (some t) s e = (t, e)

default_name-some : (name : Option Str) → (n : Str) × (default_name name ≡ some n)
default_name-some none = (codes "redstore", refl)
default_name-some (some n) = (n, refl)

-- Options that are accepted give a name and a type for the storage, and are not both quiet and
-- verbose.
parse_arguments_of-settled :
    (opts : List Opt) (names : List Str) (s : Settings)
    → parse_arguments_of opts names ≡ ok s
    → ((n : Str) × (s.storage_name ≡ some n))
      × ((t : Str) × (s.storage_type ≡ some t))
      × ((s.quiet && s.verbose) ≡ false)
parse_arguments_of-settled opts names s e =
    let (given, named, _, _, calm, same) = accepted opts names s e in
    let base = record named { storage_name = default_name named.storage_name } in
    let (quiet, verbose, name) = default_storage-noise named.storage_type base in
    let (n, en) = default_name-some named.storage_name in
    let (t, et) = default_storage-type named.storage_type base refl in
    rw same ((n, name ∙ en), (t, et), rw (quiet, verbose) calm)

-- Without the option for the type of the storage, the options for the storage are the default ones: what
-- was given for them is dropped.
pub parse_arguments_of-dropped :
    (opts : List Opt) (names : List Str) (s : Settings)
    → All NoType opts
    → parse_arguments_of opts names ≡ ok s
    → (s.storage_type ≡ some (codes "hashes"))
      × (s.storage_options ≡ some (codes "hash-type='memory'"))
parse_arguments_of-dropped opts names s h e =
    let (given, named, eg, en, _, same) = accepted opts names s e in
    let no_type =
      set_name-type given named names en ∙ set_options-NoType initial_settings given opts h eg in
    rw same (rw no_type (refl, refl))
