-- ===== src/Server/Dispatch.antt =====
-- `redhttp_server_dispatch_request` of src/redhttp/server.c.
pub mod Routes
pub mod Served
pub mod Unmatched
use redstore.Base.{
  ◌*◌, Bool, true, false, ◌&&◌, ◌||◌, Option, none, some, List, [], ◌∷◌, if◌then◌else◌, Result, ok,
  ◌>>=◌, ◌>>◌, Str, codes, str_eq, strn_eq,
}
use redstore.Request.{Request, not_null}
use redstore.Response.{Response, response_new_empty, response_new_error_page, add_header}
use redstore.Server.{Handler, Server, match_route}
use redstore.Server.Allowed.{is_path, check_allowed_responses}

-- What a handler answered, or that no handler answered.
abbrev pub Answer : Type 0 → Type 0
Answer W = Option Response × Request × W

module _ {W : Type 0} where
  abbrev pub or_next : Answer W → (Request → W → Result (Answer W)) → Result (Answer W)
  or_next (some response, request, world) next = ok (some response, request, world)
  or_next (none, request, world) next = next request world

  abbrev pub run_handler :
      Handler W → Bool × Request → W → (Request → W → Result (Answer W)) → Result (Answer W)
  run_handler it (true, request) world next =
      it.func request it.user_data world >>= λ answer. or_next answer next
  run_handler it (false, request) world next = next request world

-- The loop over the routes.
unfoldable pub try_routes : {W : Type 0} → List (Handler W) → Request → W → Result (Answer W)
try_routes [] request world = ok (none, request, world)
try_routes (it ∷ next) request world =
    match_route it request >>= λ matched. run_handler it matched world (try_routes next)

-- A GET handler with exactly the path.
unfoldable pub has_get : {W : Type 0} → List (Handler W) → Str → Bool
unfolding str_eq
has_get [] path = false
has_get (it ∷ next) path =
    (is_path it.method (codes "GET") && is_path it.path path) || has_get next path

-- A handler with exactly the path, for any method.
unfoldable pub has_path : {W : Type 0} → List (Handler W) → Str → Bool
unfolding str_eq
has_path [] path = false
has_path (it ∷ next) path = is_path it.path path || has_path next path

-- A request for '*', which is not specific to a resource.
unfoldable pub dispatch_asterisk : {W : Type 0} → List (Handler W) → Str → Result Response
dispatch_asterisk handlers method =
    if strn_eq 8 (codes "OPTIONS") method then check_allowed_responses 200 handlers none else do
      response ← response_new_error_page 405 none
      add_header response (codes "Allow") (some (codes "OPTIONS"))

-- What is answered when no handler does.
unfoldable pub dispatch_unmatched : {W : Type 0} → List (Handler W) → Str → Str → Result Response
dispatch_unmatched handlers method path =
    if strn_eq 5 (codes "HEAD") method
    then response_new_empty (if has_get handlers path then 200 else 404)
    else if has_path handlers path
    then check_allowed_responses (if strn_eq 8 (codes "OPTIONS") method then 200 else 405) handlers
        (some path)
    else response_new_error_page 404 none

abbrev pub finish : {W : Type 0} → List (Handler W) → Answer W → Result (Response × Request × W)
finish handlers (some response, request, world) = ok (response, request, world)
finish handlers (none, request, world) = do
  method ← not_null request.method
  path ← not_null request.path
  response ← dispatch_unmatched handlers method path
  ok (response, request, world)

unfoldable pub dispatch_request :
    {W : Type 0} → List (Handler W) → Request → W → Result (Response × Request × W)
dispatch_request handlers request world = do
  path ← not_null request.path
  if strn_eq 2 (codes "*") path
      then (do
        method ← not_null request.method
        response ← dispatch_asterisk handlers method
        ok (response, request, world))
      else (do answer ← try_routes handlers request world; finish handlers answer)
