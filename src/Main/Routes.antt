-- ===== src/Main/Routes.antt =====
-- How the routes of src/redstore.c answer requests.
use redstore.Base.{
  ◌+◌, ◌%◌, ◌^◌, ◌≡◌, refl, sym, ap, ◌∙◌, Bool, true, false, Option, none, some, List, [], ◌∷◌,
  ◌++◌, append_assoc, append-nil, map, if◌then◌else◌, All, Result, ok, ◌>>=◌, Str, str_eq,
}
use redstore.Request.{Request, not_null}
use redstore.Response.{Response}
use redstore.Server.{
  Handler, Server, server_new, add_handler, set_signature, method_matches, path_matches,
  match_route,
}
use redstore.Server.Dispatch.{try_routes}
use redstore.Platform.{Platform}
use redstore.Program.{Program, Action, redstore_log}
use redstore.Main.{
  Route, add_routes, request_counter, request_log, reset_error_buffer, first_routes, named_routes,
  last_routes, setup_http_server,
}

abbrev pub as_handler : {W : Type 0} → Route W → Handler W
as_handler r = record { method = r.method; path = r.path; func = r.func; user_data = r.user_data }

abbrev pub as_handlers : {W : Type 0} → List (Route W) → List (Handler W)
as_handlers [] = []
as_handlers (r ∷ next) = as_handler r ∷ as_handlers next

as_handlers-append :
    {W : Type 0} (before after : List (Route W))
    → as_handlers (before ++ after) ≡ as_handlers before ++ as_handlers after
as_handlers-append [] after = refl
as_handlers-append (r ∷ before) after =
    ap (λ hs. as_handler r ∷ hs) (as_handlers-append before after)

add_routes-handlers :
    {W : Type 0} (server : Server W) (routes : List (Route W))
    → (add_routes server routes).handlers ≡ server.handlers ++ as_handlers routes
unfolding add_routes add_handler
add_routes-handlers server [] = sym (append-nil server.handlers)
add_routes-handlers server (r ∷ next) =
    add_routes-handlers _ next ∙ append_assoc server.handlers (as_handler r ∷ []) (as_handlers next)

-- Routes that do not match are passed by.
pub try_routes-passed :
    {W : Type 0} (before after : List (Handler W)) (request : Request) (world : W)
    → All (λ it. match_route it request ≡ ok (false, request)) before
    → try_routes (before ++ after) request world ≡ try_routes after request world
unfolding try_routes
try_routes-passed [] after request world h = refl
try_routes-passed (it ∷ before) after request world (e, h) =
    rw e (try_routes-passed before after request world h)

-- Routes that a test of all of them finds not to match.
pub Unmatched-of_map :
    {W : Type 0} (routes : List (Handler W)) (request : Request)
    → map (λ it. match_route it request) routes ≡ map (λ it. ok (false, request)) routes
    → All (λ it. match_route it request ≡ ok (false, request)) routes
Unmatched-of_map [] request e = tt
Unmatched-of_map (it ∷ routes) request e = (cc e, Unmatched-of_map routes request (cc e))

-- A route that matches, and its handler answers or declines.
pub try_routes-answered :
    {W : Type 0} (it : Handler W) (next : List (Handler W)) (request r q : Request) (world w : W)
    (response : Response)
    → match_route it request ≡ ok (true, r)
    → it.func r it.user_data world ≡ ok (some response, q, w)
    → try_routes (it ∷ next) request world ≡ ok (some response, q, w)
unfolding try_routes
try_routes-answered it next request r q world w response e answers = rw e (rw answers refl)

pub try_routes-declined :
    {W : Type 0} (it : Handler W) (next : List (Handler W)) (request r q : Request) (world w : W)
    → match_route it request ≡ ok (true, r)
    → it.func r it.user_data world ≡ ok (none, q, w)
    → try_routes (it ∷ next) request world ≡ try_routes next q w
unfolding try_routes
try_routes-declined it next request r q world w e declines = rw e (rw declines refl)

-- What the method of a route decides.
pub method_matches-read :
    (asked method : Str) (request : Request)
    → request.method ≡ some method
    → method_matches (some asked) request ≡ ok (str_eq asked method)
unfolding method_matches
method_matches-read asked method request e =
    ap (λ m. not_null m >>= λ given. ok (str_eq asked given)) e

abbrev on_method : {W : Type 0} → Handler W → Request → Result Bool → Result (Bool × Request)
on_method it request same =
    same >>= λ b. if b then path_matches it.path request else ok (false, request)

pub match_route-method :
    {W : Type 0} (it : Handler W) (request : Request) (b : Bool)
    → method_matches it.method request ≡ ok b
    → match_route it request ≡ (if b then path_matches it.path request else ok (false, request))
unfolding match_route
match_route-method it request b e = ap (on_method it request) e

module _ (S : Platform) (handle_description_get : Action S.World (Option Response)) where
  open S use {World}

  -- The routes of the program.
  abbrev pub table : List (Handler (Program World))
  table = (setup_http_server S handle_description_get).handlers

  abbrev pub named : List (Handler (Program World))
  named = as_handlers (named_routes S handle_description_get)

  abbrev pub last : List (Handler (Program World))
  last = as_handlers (last_routes S handle_description_get)

  -- None of the named routes matches.
  abbrev pub NoneMatches : Request → Type 0
  NoneMatches request = All (λ it. match_route it request ≡ ok (false, request)) named

  abbrev first : List (Handler (Program World))
  first = as_handlers (first_routes S handle_description_get)

  table_lem : table ≡ first ++ (named ++ last)
  unfolding setup_http_server set_signature
  table_lem =
      add_routes-handlers server_new (
        first_routes S handle_description_get
        ++ (named_routes S handle_description_get ++ last_routes S handle_description_get))
      ∙ as_handlers-append (first_routes S handle_description_get)
          (named_routes S handle_description_get ++ last_routes S handle_description_get)
      ∙ ap (λ hs. first ++ hs)
          (as_handlers-append (named_routes S handle_description_get)
            (last_routes S handle_description_get))

  -- The program as the first three routes leave it: the request is counted, and there is no error.
  abbrev pub begun : Program World → Program World
  begun p = record p { request_count = (p.request_count + 1) % 2 ^ 64; error_buffer = none }

  pub try_routes-table :
      (request : Request) (p : Program World)
      → try_routes table request p ≡ try_routes (named ++ last) request (begun p)
  unfolding try_routes match_route method_matches path_matches request_counter request_log
      reset_error_buffer redstore_log
  try_routes-table request p = ap (λ hs. try_routes hs request p) table_lem
