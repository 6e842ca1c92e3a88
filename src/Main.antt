-- ===== src/Main.antt =====
-- src/redstore.c: the small handlers of the program, and its routes. The description of the service
-- is a parameter.
pub mod Options
pub mod Setup
pub mod Start
pub mod Stopping
pub mod Routes
pub mod Unsupported
pub mod Lost
pub mod DataRoutes
pub mod Whole
mod Tests
use redstore.Base.{
  ◌+◌, ◌*◌, ◌/◌, ◌%◌, ◌^◌, false, Option, none, some, List, [], ◌∷◌, ◌++◌, ◌==◌, if◌then◌else◌,
  bad_read, String, Result, ok, fault, Str, codes,
}
use redstore.Request.{Request, not_null}
use redstore.Response.{Response, response_new_redirect}
use redstore.Server.{
  Handler, HandlerFunc, UserData, no_data, counter, text_data, Server, server_new, add_handler,
  set_signature,
}
use redstore.Platform.{Platform, LogLevel, log_debug, log_info}
use redstore.Program.{Program, Action, lift, log, handler}
use redstore.Program.Monad.{◌>>=◌, ◌>>◌, pure, the_request, the_program, set_program}
use redstore.Pages.{page_new_with_message}
use redstore.Pages.Forms.{
  handle_page_home, handle_page_robots_txt, handle_page_update_form, handle_page_load_form,
}
use redstore.Query.{handle_query, handle_sparql}
use redstore.Data.Handlers.{
  handle_data_head, handle_data_get, handle_data_post, handle_data_put, handle_data_delete,
}
use redstore.Update.Handlers.{handle_load_post, handle_insert_post, handle_delete_post}
use redstore.Graphs.{handle_graph_index}
use redstore.Images.{handle_image_favicon}

-- The signals that the program handles.
pub data Signal : Type 0 where
  sighup sigterm sigint : Signal

module _ {W : Type 0} where
  unfoldable pub termination_handler : Signal → Program W → Program W
  termination_handler _ p = record p { running = false }

  unfoldable pub request_counter : Action W (Option Response)
  request_counter = do
    p ← the_program
    set_program (record p { request_count = (p.request_count + 1) % 2 ^ 64 })
    pure none

  -- Only prints.
  unfoldable pub request_log : Action W (Option Response)
  request_log = log log_info >> pure none

  unfoldable pub reset_error_buffer : Action W (Option Response)
  reset_error_buffer = do p ← the_program; set_program (record p { error_buffer = none }); pure none

-- The path without the slash that it ends with, if it does. An empty path has no last byte.
unfoldable pub without_slash : Str → Result (Option Str)
without_slash [] = fault bad_read
without_slash (c ∷ []) = ok (if c == b'/' then some [] else none)
without_slash (c ∷ d ∷ path) = elim (without_slash (d ∷ path)) [
  | fault broken ↦ fault broken
  | ok none ↦ ok none
  | ok (some tmp) ↦ ok (some (c ∷ tmp))
]

abbrev redirect_to : {W : Type 0} → Option Str → Action W (Option Response)
redirect_to none = pure none
redirect_to (some tmp) = lift (response_new_redirect tmp 301) >>= λ response. pure (some response)

unfoldable pub remove_trailing_slash : {W : Type 0} → Action W (Option Response)
remove_trailing_slash = do
  request ← the_request
  path ← lift (not_null request.path)
  tmp ← lift (without_slash path)
  redirect_to tmp

-- A page as the answer of a handler.
abbrev page : {W : Type 0} → Result Response → Action W (Option Response)
page response = lift response >>= λ r. pure (some r)

-- `redhttp_server_add_handler` for one entry of the table
pub record Route (W : Type 0) : Type 0 where
  pub method : Option Str
  pub path : Option Str
  pub func : HandlerFunc W
  pub user_data : UserData

abbrev pub route : {W : Type 0} → String → String → HandlerFunc W → UserData → Route W
route method path func user_data = record {
  method = some (codes method);
  path = some (codes path);
  func = func;
  user_data = user_data;
}

abbrev pub any_route : {W : Type 0} → Option Str → HandlerFunc W → UserData → Route W
any_route method func user_data = record {
  method = method;
  path = none;
  func = func;
  user_data = user_data;
}

unfoldable pub add_routes : {W : Type 0} → Server W → List (Route W) → Server W
unfolding add_handler
add_routes server [] = server
add_routes server (r ∷ next) =
    add_routes (add_handler server r.method r.path r.func r.user_data) next

module _ (S : Platform) where
  open S use {World}

  unfoldable pub handle_not_found : Action World (Option Response)
  handle_not_found = page_new_with_message S log_debug 404 (codes "Unsupported path.")

  abbrev update_form : HandlerFunc (Program World)
  update_form request user_data p = page (handle_page_update_form S request user_data) request p

  module _ (handle_description_get : Action World (Option Response)) where
    abbrev sparql : HandlerFunc (Program World)
    sparql = handler (handle_sparql S handle_description_get)

    -- The three that run before each request.
    abbrev pub first_routes : List (Route (Program World))
    first_routes =
        any_route none (handler request_counter) counter
        ∷ any_route none (handler request_log) no_data
        ∷ any_route none (handler reset_error_buffer) no_data
        ∷ []

    abbrev pub query_routes : List (Route (Program World))
    query_routes =
        route "GET" "/query" (handler (handle_query S)) no_data
        ∷ route "GET" "/sparql" sparql no_data
        ∷ route "GET" "/sparql/" sparql no_data
        ∷ route "POST" "/query" (handler (handle_query S)) no_data
        ∷ route "POST" "/sparql" sparql no_data
        ∷ route "POST" "/sparql/" sparql no_data
        ∷ []

    abbrev pub data_routes : List (Route (Program World))
    data_routes =
        route "HEAD" "/data*" (handler (handle_data_head S)) no_data
        ∷ route "GET" "/data*" (handler (handle_data_get S)) no_data
        ∷ route "PUT" "/data*" (handler (handle_data_put S)) no_data
        ∷ route "POST" "/data*" (handler (handle_data_post S)) no_data
        ∷ route "DELETE" "/data*" (handler (handle_data_delete S)) no_data
        ∷ []

    abbrev pub update_routes : List (Route (Program World))
    update_routes =
        route "GET" "/insert" update_form (text_data (codes "Insert Triples"))
        ∷ route "POST" "/insert" (handler (handle_insert_post S)) no_data
        ∷ route "GET" "/delete" update_form (text_data (codes "Delete Triples"))
        ∷ route "POST" "/delete" (handler (handle_delete_post S)) no_data
        ∷ []

    abbrev pub page_routes : List (Route (Program World))
    page_routes =
        route "GET" "/graphs" (handler (handle_graph_index S)) no_data
        ∷ route "GET" "/load" (handler (page (handle_page_load_form S))) no_data
        ∷ route "POST" "/load" (handler (handle_load_post S)) no_data
        ∷ route "GET" "/" (handler (page (handle_page_home S))) no_data
        ∷ route "GET" "/description" (handler handle_description_get) no_data
        ∷ route "GET" "/favicon.ico" (handler (handle_image_favicon S)) no_data
        ∷ route "GET" "/robots.txt" (handler (page (handle_page_robots_txt S))) no_data
        ∷ []

    abbrev pub last_routes : List (Route (Program World))
    last_routes =
        any_route (some (codes "GET")) (handler remove_trailing_slash) no_data
        ∷ any_route none (handler handle_not_found) no_data
        ∷ []

    abbrev pub named_routes : List (Route (Program World))
    named_routes = query_routes ++ (data_routes ++ (update_routes ++ page_routes))

    unfoldable pub setup_http_server : Server (Program World)
    unfolding add_routes set_signature
    setup_http_server =
        set_signature (add_routes server_new (first_routes ++ (named_routes ++ last_routes)))
          (some S.signature)
