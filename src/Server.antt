-- ===== src/Server.antt =====
-- The routes and the dispatch of src/redhttp/server.c. A handler is a function of the program that
-- uses the library: it may change the request and the state of that program, and it declines by
-- returning NULL.
pub mod Match
mod Tests
pub mod Allowed
pub mod Dispatch
pub mod Handle
pub mod Listen
use redstore.Base.{
  ℕ, ◌+◌, ◌*◌, Bool, true, false, Option, none, some, List, [], ◌∷◌, ◌++◌, ◌==◌, if◌then◌else◌,
  length, drop, bad_read, Result, ok, fault, ◌>>=◌, ◌>>◌, Str, str_eq, strn_eq, ℤ, pos, negsuc,
}
use redstore.Request.{Request, not_null}
use redstore.Request.Setters.{set_path_glob}
use redstore.Response.{Response}

-- What the `user_data` of a handler points to: nothing, a counter or a text.
pub data UserData : Type 0 where
  no_data counter : UserData
  text_data : Str → UserData

-- `W` is what a handler can read and write of the program beside the request.
abbrev pub HandlerFunc : Type 0 → Type 0
HandlerFunc W = Request → UserData → W → Result (Option Response × Request × W)

-- struct redhttp_handler_s; `none` stands for any method, or any path.
pub record Handler (W : Type 0) : Type 0 where
  pub method : Option Str
  pub path : Option Str
  pub func : HandlerFunc W
  pub user_data : UserData

-- struct redhttp_server_s; `sockets` holds the first `socket_count` entries of the array.
pub record Server (W : Type 0) : Type 0 where
  pub sockets : List ℕ
  pub socket_max : ℤ
  pub backlog_size : ℤ
  pub signature : Option Str
  pub handlers : List (Handler W)

abbrev pub server_new : {W : Type 0} → Server W
server_new = record {
  sockets = [];
  socket_max = negsuc 0;
  backlog_size = pos 16;
  signature = none;
  handlers = [];
}

unfoldable pub add_handler :
    {W : Type 0} → Server W → Option Str → Option Str → HandlerFunc W → UserData → Server W
add_handler server method path func user_data = record server {
  handlers =
      server.handlers
      ++ record { method = method; path = path; func = func; user_data = user_data } ∷ [];
}

unfoldable pub set_signature : {W : Type 0} → Server W → Option Str → Server W
set_signature server signature = record server { signature = signature }

-- `handler->path[path_len - 1] == '*'`, with the path before it. An empty path has no last byte.
unfoldable pub glob_stem : Str → Result (Option Str)
glob_stem [] = fault bad_read
glob_stem (c ∷ []) = ok (if c == b'*' then some [] else none)
glob_stem (c ∷ d ∷ s) = do
  stem ← glob_stem (d ∷ s)
  ok (elim stem [ none ↦ none | some t ↦ some (c ∷ t) ])

-- Does the method match?
unfoldable pub method_matches : Option Str → Request → Result Bool
method_matches none request = ok true
method_matches (some method) request = do asked ← not_null request.method; ok (str_eq method asked)

-- `strncmp(handler->path, request->path, path_len - 1) == 0` for a path that ends with an asterisk
abbrev pub stem_matches : Option Str → Str → Bool
stem_matches none path = false
stem_matches (some stem) path = strn_eq (length stem) stem path

abbrev stem_length : Option Str → ℕ
stem_length none = 0
stem_length (some stem) = length stem

unfoldable pub path_matches : Option Str → Request → Result (Bool × Request)
path_matches none request = ok (true, request)
path_matches (some pattern) request = do
  stem ← glob_stem pattern
  path ← not_null request.path
  if stem_matches stem path
      then (do request' ← set_path_glob request (drop (stem_length stem) path); ok (true, request'))
      else ok (str_eq pattern path, request)

unfoldable pub match_route : {W : Type 0} → Handler W → Request → Result (Bool × Request)
match_route handler request = do
  same ← method_matches handler.method request
  if same then path_matches handler.path request else ok (false, request)
