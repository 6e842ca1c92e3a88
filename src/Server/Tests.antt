-- ===== src/Server/Tests.antt =====
-- Runs of src/redhttp/server.c, and the theorems on it for concrete routes.
use redstore.Base.{
  ◌≡◌, refl, ◌⊎◌, inl, inr, true, false, none, some, List, [], ◌∷◌, ok, Str, codes, str_eq, str_ne,
  pos,
}
use redstore.Socket.{Socket}
use redstore.Request.{Request, live, freed, request_new}
use redstore.Response.{Response}
use redstore.Server.{Handler, HandlerFunc, no_data, match_route, method_matches, path_matches}
use redstore.Server.Match.{
  MethodFits, PathFits, IsReadable, match_route_lem, path_matches-freed_glob,
}
use redstore.Server.Allowed.{add_with_head, allowed_slots, initial_slots}
use redstore.Server.Allowed.Methods.{Listed}
use redstore.Server.Dispatch.{dispatch_request}
use redstore.Server.Dispatch.Served.{UnmatchedStatus}
use redstore.Server.Dispatch.Unmatched.{NoneFits, dispatch_request-unmatched}
use redstore.Server.Dispatch.Routes.{dispatch_request-first}

abbrev no_socket : Socket
no_socket = record { input = []; eof = true; output = [] }

abbrev asked : Str → Str → Request
asked method path = record (request_new no_socket) { method = some method; path = some path }

asked-IsReadable : (method path : Str) → IsReadable (asked method path) method path
asked-IsReadable method path = record { method_read = refl; path_read = refl; no_glob = refl }

abbrev page : Response
page = record {
  headers = [];
  status_code = 200;
  status_message = none;
  content_buffer = none;
  content_length = pos 0;
  content_free_callback = false;
  user_data = 0;
  headers_sent = false;
}

abbrev answer_page : HandlerFunc Unit
answer_page request user_data world = ok (some page, request, world)

-- A route for every request, whose handler declines.
abbrev passing_route : Handler Unit
passing_route = record {
  method = none;
  path = none;
  func = λ request user_data world. ok (none, request, world);
  user_data = no_data;
}

-- The routes "/" for GET, and "/data/*" for PUT.
abbrev root_route : Handler Unit
root_route = record {
  method = some (codes "GET");
  path = some (codes "/");
  func = answer_page;
  user_data = no_data;
}

abbrev data_route : Handler Unit
data_route = record {
  method = some (codes "PUT");
  path = some (codes "/data/*");
  func = answer_page;
  user_data = no_data;
}

abbrev routes : List (Handler Unit)
routes = root_route ∷ data_route ∷ []

match_route_lem_example :
    ((request' : Request) × (match_route data_route (asked (codes "PUT") (codes "/data/x"))
        ≡ ok (true, request'))
      × (MethodFits (some (codes "PUT")) (codes "PUT")
          × PathFits (some (codes "/data/*")) (codes "/data/x"))
      × (request'.method ≡ some (codes "PUT"))
      × (request'.path ≡ some (codes "/data/x")))
    ⊎ ((match_route data_route (asked (codes "PUT") (codes "/data/x"))
          ≡ ok (false, asked (codes "PUT") (codes "/data/x")))
        × ¬ (
            MethodFits (some (codes "PUT")) (codes "PUT")
            × PathFits (some (codes "/data/*")) (codes "/data/x")))
match_route_lem_example =
    match_route_lem data_route (asked (codes "PUT") (codes "/data/x")) (codes "PUT")
      (codes "/data/x") (asked-IsReadable (codes "PUT") (codes "/data/x")) (λ e. cc e)

path_matches-freed_glob_example :
    (request' : Request) × (path_matches
        (some (codes "/data/*"))
        (record (asked (codes "GET") (codes "/data/")) { path_glob = live (codes "x") })
      ≡ ok (true, request'))
    × (request'.path_glob ≡ freed)
path_matches-freed_glob_example =
    path_matches-freed_glob
      (record (asked (codes "GET") (codes "/data/")) { path_glob = live (codes "x") })
      (codes "/data/") (codes "x") refl refl

head_listed : Listed (codes "HEAD") (allowed_slots initial_slots routes (some (codes "/")))
unfolding allowed_slots add_with_head str_eq
head_listed = inr (inr (inl refl))

none_fits : NoneFits routes (codes "POST") (codes "/")
unfolding str_eq
none_fits = (
  (λ e. cc e, λ f. str_ne (codes "GET") (codes "POST") refl f.0),
  ((λ e. cc e, λ f. str_ne (codes "PUT") (codes "POST") refl f.0), tt),
)

dispatch_request-unmatched_example :
    (r : Response) × (dispatch_request routes (asked (codes "POST") (codes "/")) tt
      ≡ ok (r, asked (codes "POST") (codes "/"), tt))
    × UnmatchedStatus routes (codes "POST") (codes "/") r.status_code
dispatch_request-unmatched_example =
    dispatch_request-unmatched routes (asked (codes "POST") (codes "/")) tt (codes "POST")
      (codes "/") (asked-IsReadable (codes "POST") (codes "/"))
      (str_ne (codes "/") (codes "*") (unfold str_eq in refl)) none_fits

dispatch_request-first_example :
    (request' : Request) × (match_route data_route (asked (codes "PUT") (codes "/data/x"))
      ≡ ok (true, request'))
    × (request'.method ≡ some (codes "PUT"))
    × (request'.path ≡ some (codes "/data/x"))
    × (dispatch_request (passing_route ∷ routes) (asked (codes "PUT") (codes "/data/x")) tt
        ≡ ok (page, request', tt))
unfolding str_eq match_route method_matches path_matches
dispatch_request-first_example =
    dispatch_request-first (passing_route ∷ root_route ∷ []) [] data_route
      (asked (codes "PUT") (codes "/data/x")) (asked (codes "PUT") (codes "/data/x")) tt tt
      (λ request. (page, request, tt)) (codes "PUT") (codes "/data/x")
      (asked-IsReadable (codes "PUT") (codes "/data/x")) (str_ne (codes "/data/x") (codes "*") refl)
      (
        (λ e. cc e),
        inr (
          _,
          tt,
          (_, refl, refl),
          asked-IsReadable (codes "PUT") (codes "/data/x"),
          ((λ e. cc e), inl (λ f. str_ne (codes "GET") (codes "PUT") refl f.0, (refl, refl))),
        ),
      )
      (λ e. cc e) (refl, inr (codes "/data/", codes "x", refl, refl)) (λ request' _. refl)
