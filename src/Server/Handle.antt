-- ===== src/Server/Handle.antt =====
-- A connection of src/redhttp/server.c, from the request that is read to the response that is sent.
pub mod Exchange
mod Tests
use redstore.Base.{
  ℕ, zero, suc, Bool, false, Option, none, some, List, [], Result, ok, ◌>>=◌, ◌>>◌, Str,
}
use redstore.Request.{Request, request_new}
use redstore.Request.Setters.{request_free}
use redstore.Request.Read.{request_read}
use redstore.Response.{Response, response_new_error_page}
use redstore.Response.Send.{response_send}
use redstore.Server.{Server}
use redstore.Server.Dispatch.{dispatch_request}

-- What the system gives for an accepted connection: the bytes that the client sends, and what
-- getnameinfo says of both ends; `none` is a failure.
pub record Connection : Type 0 where
  pub input : List ℕ
  pub client : Option (Str × Str)
  pub local : Option (Str × Str)

abbrev pub opened : {W : Type 0} → Server W → Connection → Request
opened server connection =
    record (request_new (record { input = connection.input; eof = false; output = [] })) {
      server = some server.signature;
    }

-- `response = new_error_page(400)` for a request that cannot be read, and the dispatch if not.
abbrev pub answer : {W : Type 0} → Server W → Request × ℕ → W → Result (Response × Request × W)
answer server (request, zero) world = dispatch_request server.handlers request world
answer server (request, suc code) world = do
  response ← response_new_error_page 400 none
  ok (response, request, world)

-- The address and the port of the server; `none` is the result -1.
abbrev get_server_addr : Option (Str × Str) → Request → Option Request
get_server_addr none request = none
get_server_addr (some (server_addr, server_port)) request =
    some (record request { server_addr = server_addr; server_port = server_port })

module _ (can_allocate : ℕ → Bool) (date : Option Str) where
  unfoldable pub serve : {W : Type 0} → Server W → Request → W → Result (List ℕ × W)
  serve server request world = do
    read ← request_read can_allocate request
    (response, request', world') ← answer server read world
    (response', request'') ← response_send response request' date
    request_free request''
    ok (request''.socket.output, world')

  -- `none` is the result -1, and `some` what was written to the client.
  unfoldable pub handle_request :
      {W : Type 0} → Server W → Connection → W → Result (Option (List ℕ) × W)
  unfolding serve
  handle_request server connection world = elim connection.client [
    | none ↦ ok (none, world)
    | some (remote_addr, remote_port) ↦
        elim (get_server_addr connection.local (record (opened server connection) {
          remote_addr = remote_addr;
          remote_port = remote_port;
        })) [
          | none ↦ ok (none, world)
          | some request ↦ serve server request world >>= λ served. ok (some served.0, served.1)
        ]
  ]
