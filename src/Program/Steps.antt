-- ===== src/Program/Steps.antt =====
-- Runs of a sequence of actions, one step at a time.
use redstore.Base.{◌≡◌, ap, ok}
use redstore.Request.{Request}
use redstore.Platform.{Call}
use redstore.Program.{Program, Action, call}
use redstore.Program.Monad.{◌>>=◌, next_action}
use redstore.Program.Calls.{quiet, call-quiet}

pub >>=-step :
    {W A B : Type 0} (first : Action W A) (next : A → Action W B) {request request' : Request}
    {p p' : Program W} {a : A}
    → first request p ≡ ok (a, request', p')
    → (first >>= next) request p ≡ next a request' p'
>>=-step first next e = ap (λ r. next_action r next) e

-- A call that logs nothing and leaves the libraries in a state.
pub call-step :
    {W A B : Type 0} (operation : Call W A) (next : A → Action W B) (request : Request)
    (p : Program W) {a : A} {world : W}
    → operation p.world ≡ quiet a world
    → (call operation >>= next) request p ≡ next a request (record p { world = world })
call-step operation next request p e =
    >>=-step (call operation) next (call-quiet operation request p _ _ e)
