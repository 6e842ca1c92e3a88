-- ===== src/Program/Monad.antt =====
-- One action after another: the request and the state of the program are passed on, and a fault ends
-- the run.
use redstore.Base.{Result, ok, fault}
use redstore.Program.{Program, Action}
use redstore.Request.{Request}

abbrev pub next_action :
    {W A B : Type 0}
    → Result (A × Request × Program W)
    → (A → Action W B)
    → Result (B × Request × Program W)
next_action (fault broken) next = fault broken
next_action (ok (a, request, p)) next = next a request p

infixl 5 ◌>>=◌ ◌>>◌
abbrev pub ◌>>=◌ : {W A B : Type 0} → Action W A → (A → Action W B) → Action W B
◌>>=◌ first next request p = next_action (first request p) next

abbrev pub ◌>>◌ : {W A B : Type 0} → Action W A → Action W B → Action W B
first >> then_action = first >>= λ _. then_action

abbrev pub pure : {W A : Type 0} → A → Action W A
pure a request p = ok (a, request, p)

-- The request, and the state of the program.
abbrev pub the_request : {W : Type 0} → Action W Request
the_request request p = ok (request, request, p)

abbrev pub the_program : {W : Type 0} → Action W (Program W)
the_program request p = ok (p, request, p)

abbrev pub set_request : {W : Type 0} → Request → Action W Unit
set_request request' request p = ok (tt, request', p)

abbrev pub set_program : {W : Type 0} → Program W → Action W Unit
set_program p' request p = ok (tt, request, p')
