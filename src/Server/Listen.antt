-- ===== src/Server/Listen.antt =====
-- The sockets of src/redhttp/server.c: those that are opened to listen on, and one round of waiting
-- for connections on them.
pub mod Sockets
mod Tests
use redstore.Base.{
  ℕ, ◌+◌, Bool, false, ◌&&◌, not, Option, none, some, List, [], ◌∷◌, ◌++◌, ltb, ◌==◌, if◌then◌else◌,
  length, bad_write, process_exit, Result, ok, fault, ◌>>=◌, ◌>>◌, Str, ℤ, pos, negsuc,
}
use redstore.Server.{Server}
use redstore.Server.Handle.{Connection, handle_request}

-- FD_SETSIZE
abbrev pub fd_setsize : ℕ
fd_setsize = 1024

-- What the system gives for one result of getaddrinfo: the socket, unless it cannot be made, and
-- whether it can be bound and listened on.
pub record Candidate : Type 0 where
  pub socket : Option ℕ
  pub binds : Bool
  pub listens : Bool

-- `if (sock > server->socket_max)`
abbrev pub max_with : ℤ → ℕ → ℤ
max_with (negsuc n) sock = pos sock
max_with (pos n) sock = if ltb n sock then pos sock else pos n

abbrev pub add_socket : {W : Type 0} → Server W → ℕ → Server W
add_socket server sock = record server {
  sockets = server.sockets ++ sock ∷ [];
  socket_max = max_with server.socket_max sock;
}

-- One round of the loop: the socket is used if every step succeeds.
unfoldable pub try_candidate : {W : Type 0} → Server W → Candidate → Server W
try_candidate server candidate = elim candidate.socket [
  | none ↦ server
  | some sock ↦ if candidate.binds && candidate.listens then add_socket server sock else server
]

unfoldable pub listen_loop : {W : Type 0} → Server W → List Candidate → Server W
unfolding try_candidate
listen_loop server [] = server
listen_loop server (candidate ∷ next) =
    let rest = listen_loop (try_candidate server candidate) next in
    if ltb (length server.sockets) fd_setsize then rest else server

-- `redhttp_server_listen`, for what getaddrinfo finds; the result is whether it is 0.
unfoldable pub server_listen : {W : Type 0} → Server W → Option (List Candidate) → Server W × Bool
unfolding listen_loop
server_listen server none = (server, false)
server_listen server (some found) =
    let server' = listen_loop server found in (server', not (length server'.sockets == 0))

-- What select does: it is interrupted, it fails, or it says which sockets are ready.
pub data Selected : Type 0 where
  interrupted select_failed : Selected
  ready : (ℕ → Bool) → Selected

-- FD_SET writes within the set for a descriptor that is small enough.
abbrev pub set_all : List ℕ → Result (Unit {0})
set_all [] = ok tt
set_all (sock ∷ next) = if ltb sock fd_setsize then set_all next else fault bad_write

-- What the clients are sent, one after another, and the state that is left.
abbrev pub Served : Type 0 → Type 0
Served W = List (Option (List ℕ)) × W

module _ (can_allocate : ℕ → Bool) (date : Option Str) {W : Type 0} where
  abbrev and_then : Option (List ℕ) × W → (W → Result (Served W)) → Result (Served W)
  and_then (output, world) next = do (outputs, world') ← next world; ok (output ∷ outputs, world')

  abbrev serve_accepted :
      Server W → Option Connection → (W → Result (Served W)) → W → Result (Served W)
  serve_accepted server none next world = fault process_exit
  serve_accepted server (some connection) next world =
      handle_request can_allocate date server connection world >>= λ done. and_then done next

  -- The loop over the sockets; `none` is a failure of accept.
  unfoldable pub run_loop :
      Server W → (ℕ → Bool) → (ℕ → Option Connection) → List ℕ → W → Result (Served W)
  run_loop server is_ready accept [] world = ok ([], world)
  run_loop server is_ready accept (sock ∷ next) world =
      let rest = run_loop server is_ready accept next in
      if is_ready sock then serve_accepted server (accept sock) rest world else rest world

  abbrev run_selected : Server W → Selected → (ℕ → Option Connection) → W → Result (Served W)
  run_selected server interrupted accept world = ok ([], world)
  run_selected server select_failed accept world = fault process_exit
  run_selected server (ready is_ready) accept world =
      run_loop server is_ready accept server.sockets world

  unfoldable pub server_run : Server W → Selected → (ℕ → Option Connection) → W → Result (Served W)
  unfolding run_loop
  server_run server selected accept world =
      set_all server.sockets >> run_selected server selected accept world
