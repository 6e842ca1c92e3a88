-- ===== src/Main/Start.antt =====
-- `main` of src/redstore.c: the start, the loop, and the end of the program.
use redstore.Base.{
  ℕ, Bool, true, false, not, Option, none, List, [], ◌∷◌, if◌then◌else◌, Result, ok, ◌>>=◌, Str,
}
use redstore.Server.{Server}
use redstore.Server.Handle.{Connection}
use redstore.Server.Listen.{Selected, server_run}
use redstore.Platform.{Platform, Call, log_fatal}
use redstore.Program.{Program, redstore_log, log_all}
use redstore.Main.Setup.{prepared}
use redstore.Main.{Signal, termination_handler, setup_http_server}
use redstore.Main.Options.{Settings, Opt, parse_arguments_of}
use redstore.Response.{Response}
use redstore.Program.{Action}

-- The globals as the program starts, with the options `quiet` and `verbose`.
abbrev pub initial_program : {W : Type 0} → W → Settings → Program W
initial_program world settings = record {
  world = world;
  error_buffer = none;
  request_count = 0;
  query_count = 0;
  import_count = 0;
  base_id = 0;
  quiet = settings.quiet;
  verbose = settings.verbose;
  running = true;
  exit_code = 0;
}

-- One run of the loop: the signals that arrive before select returns, what it says, and the
-- connections that are accepted.
pub record Round : Type 0 where
  pub signals : List Signal
  pub selected : Selected
  pub accept : ℕ → Option Connection

module _ {W : Type 0} where
  unfoldable pub deliver : List Signal → Program W → Program W
  unfolding termination_handler
  deliver [] p = p
  deliver (signum ∷ next) p = deliver next (termination_handler signum p)

  -- One step of the start and what follows it; a failure is fatal, and ends the start.
  unfoldable pub start : List (Call W Bool) → Program W → Result (Bool × Program W)
  unfolding redstore_log
  start [] p = ok (true, p)
  start (step ∷ next) p = do
    let reply = step p.world
    p' ← log_all reply.messages (record p { world = reply.world })
    if reply.value
        then start next p'
        else do stopped ← redstore_log log_fatal p'; ok (false, stopped)

  -- What the program leaves: its exit code.
  abbrev clean_up : Program W → ℕ
  clean_up p = p.exit_code

module _ (S : Platform) where
  open S use {World}

  unfoldable pub main_loop :
      Server (Program World) → List Round → Program World → Result (Program World)
  main_loop server [] p = ok p
  main_loop server (round ∷ next) p = if not p.running then ok p else do
    (outputs, p') ←
        server_run S.can_allocate S.date server round.selected round.accept
          (deliver round.signals p)
    main_loop server next p'

  module _ (handle_description_get : Action World (Option Response)) where
    abbrev run_started : Server (Program World) → List Round → Bool × Program World → Result ℕ
    run_started server rounds (false, p) = ok (clean_up p)
    run_started server rounds (true, p) = do p' ← main_loop server rounds p; ok (clean_up p')

    -- The start opens the store; the other steps make the description and listen, and the server is
    -- as the last of them leaves it.
    unfoldable pub main :
        World
        → List Opt
        → List Str
        → (Settings → List (Call World Bool))
        → (Server (Program World) → Server (Program World))
        → List Round
        → Result ℕ
    main world opts names steps listening rounds = do
      settings ← parse_arguments_of opts names
      started ← start (prepared S settings ∷ steps settings) (initial_program world settings)
      run_started (listening (setup_http_server S handle_description_get)) rounds started
