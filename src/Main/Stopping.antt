-- ===== src/Main/Stopping.antt =====
-- A start of src/redstore.c that fails.
use redstore.Base.{
  ◌+◌, ◌<◌, ◌≡◌, sym, ap, inl, inr, Bool, true, false, List, [], ◌∷◌, arith, if◌then◌else◌,
  Bool-cases, Result, ok, ◌>>=◌, >>=-eq-ok, ok-injective,
}
use redstore.Platform.{Call, log_fatal}
use redstore.Program.{Program, redstore_log, log_all}
use redstore.Main.Start.{start}

stopped :
    {W : Type 0} (p p' : Program W)
    → redstore_log log_fatal p ≡ ok p'
    → (p'.running ≡ false) × (p'.exit_code ≡ p.exit_code + 1)
unfolding redstore_log
stopped p p' e = elim (Bool-cases p.running) [
  | inl on ↦
      let same = ok-injective (rw on at e) in
      (ap (λ q. q.running) (sym same), ap (λ q. q.exit_code) (sym same))
  | inr off ↦ cc (rw off at e)
]

-- A program that has stopped, and not well.
abbrev pub HasStopped : {W : Type 0} → Program W → Type 0
HasStopped p = (p.running ≡ false) × (0 < p.exit_code)

abbrev ending : {W : Type 0} → Program W → Result (Bool × Program W)
ending last = ok (false, last)

-- What follows a step, by whether it has succeeded.
after_step :
    {W : Type 0} (value : Bool) (logged p' : Program W) (rest : Result (Bool × Program W))
    → (rest ≡ ok (false, p') → HasStopped p')
    → (if value then rest else redstore_log log_fatal logged >>= ending) ≡ ok (false, p')
    → HasStopped p'
after_step true logged p' rest h e = h e
after_step {W} false logged p' rest h e =
    let (last, e2, r2) = >>=-eq-ok (redstore_log log_fatal logged) ending e in
    let same : last ≡ p' = ap (λ (q : Bool × Program W). q.1) (ok-injective r2) in
    let (off, code) = stopped logged last e2 in rw⁻¹ same (off, omega (arith, code))

-- If a step of the start fails, and the program does not exit at once, it is not running any more and its
-- exit code is not 0.
pub start-fails :
    {W : Type 0} (steps : List (Call W Bool)) (p p' : Program W)
    → start steps p ≡ ok (false, p')
    → HasStopped p'
unfolding start
start-fails [] p p' e = cc e
start-fails (step ∷ next) p p' e =
    let (logged, _, rest) =
      >>=-eq-ok (log_all (step p.world).messages (record p { world = (step p.world).world })) _ e in
    after_step (step p.world).value logged p' (start next logged) (start-fails next logged p') rest
