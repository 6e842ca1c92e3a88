-- ===== src/Main/DataRoutes.antt =====
-- The routes of src/redstore.c for /data and what follows it in a path.
use redstore.Base.{
  ◌≡◌, refl, ap, ◌∙◌, inl, inr, Bool, true, false, Option, none, some, List, [], ◌∷◌, ◌++◌, arith,
  Bool-cases, All, String, Result, ok, ◌>>=◌, Str, codes, str_eq, str_eq_iff, strn_eq,
}
use redstore.Request.{Request, null, not_null}
use redstore.Request.Setters.{set_path_glob, stored_glob}
use redstore.Response.{Response}
use redstore.Server.{Handler, no_data, glob_stem, method_matches, path_matches, match_route}
use redstore.Server.Dispatch.{try_routes, dispatch_request}
use redstore.Platform.{Platform}
use redstore.Program.{Program, Action, handler}
use redstore.Data.Handlers.{
  handle_data_head, handle_data_get, handle_data_post, handle_data_put, handle_data_delete,
}
use redstore.Main.{route, query_routes}
use redstore.Main.Routes.{
  as_handler, as_handlers, table, named, last, begun, try_routes-table, try_routes-passed,
  try_routes-answered, match_route-method, method_matches-read,
}

-- The methods of the five routes.
pub data DataMethod : Type 0 where
  head get put post delete : DataMethod

abbrev pub method_text : DataMethod → Str
method_text head = codes "HEAD"
method_text get = codes "GET"
method_text put = codes "PUT"
method_text post = codes "POST"
method_text delete = codes "DELETE"

abbrev pub data_handler : (S : Platform) → DataMethod → Action S.World (Option Response)
data_handler S head = handle_data_head S
data_handler S get = handle_data_get S
data_handler S put = handle_data_put S
data_handler S post = handle_data_post S
data_handler S delete = handle_data_delete S

abbrev pub data_path : Str → Str
data_path rest = codes "/data" ++ rest

-- The request with what follows "/data".
abbrev pub globbed : Request → Str → Request
globbed request rest = record request { path_glob = stored_glob null rest }

module _ {W : Type 0} (it : Handler W) (request : Request) (method : Str)
    (method_read : request.method ≡ some method) where
  -- A route for another method.
  other_method :
      (asked : Str)
      → it.method ≡ some asked
      → str_eq asked method ≡ false
      → match_route it request ≡ ok (false, request)
  other_method asked is_asked differs = match_route-method it request false (
      ap (λ m. method_matches m request) is_asked
      ∙ (method_matches-read asked method request method_read ∙ ap ok differs))

  -- A route for the method: its path decides.
  same_method :
      (asked : Str)
      → it.method ≡ some asked
      → str_eq asked method ≡ true
      → match_route it request ≡ path_matches it.path request
  same_method asked is_asked same = match_route-method it request true (
      ap (λ m. method_matches m request) is_asked
      ∙ (method_matches-read asked method request method_read ∙ ap ok same))

abbrev comparing : Str → Request → Str → Result (Bool × Request)
comparing pattern request given = ok (str_eq pattern given, request)

-- A path that is not a glob is compared as it is.
path_matches-exact :
    (pattern path : Str) (request : Request)
    → glob_stem pattern ≡ ok none
    → request.path ≡ some path
    → path_matches (some pattern) request ≡ comparing pattern request path
unfolding path_matches
path_matches-exact pattern path request e read =
    rw e (ap (λ o. not_null o >>= comparing pattern request) read)

-- "/data*" matches, and the rest of the path is the glob.
path_matches-data :
    (request : Request) (rest : Str)
    → request.path ≡ some (data_path rest)
    → request.path_glob ≡ null
    → path_matches (some (codes "/data*")) request ≡ ok (true, globbed request rest)
unfolding path_matches glob_stem strn_eq set_path_glob
path_matches-data request rest read fresh = ground (arith, read, fresh)

module _ (S : Platform) (handle_description_get : Action S.World (Option Response))
    (request : Request) (rest : Str) (read : request.path ≡ some (data_path rest)) where
  open S use {World}

  -- A route of the queries that has the method of the request has another path.
  query_passed :
      (asked pattern : String) (func : _) (method : Str)
      → request.method ≡ some method
      → glob_stem (codes pattern) ≡ ok none
      → str_eq (codes pattern) (data_path rest) ≡ false
      → match_route {W = Program World} (as_handler (route asked pattern func no_data)) request
        ≡ ok (false, request)
  query_passed asked pattern func method method_read exact differs =
      elim (Bool-cases (str_eq (codes asked) method)) [
        | inl same ↦
            same_method (as_handler (route asked pattern func no_data)) request method method_read
              (codes asked) refl same
            ∙ (path_matches-exact (codes pattern) (data_path rest) request exact read
                ∙ ap (λ b. ok (b, request)) differs)
        | inr other ↦
            other_method (as_handler (route asked pattern func no_data)) request method method_read
              (codes asked) refl other
      ]

  abbrev queries : List (Handler (Program World))
  queries = as_handlers (query_routes S handle_description_get)

  abbrev data_route : DataMethod → Handler (Program World)
  data_route m = record {
    method = some (method_text m);
    path = some (codes "/data*");
    func = handler (data_handler S m);
    user_data = no_data;
  }

  abbrev Passed : List (Handler (Program World)) → Type 0
  Passed handlers = All (λ it. match_route it request ≡ ok (false, request)) handlers

  queries-Passed : (method : Str) → request.method ≡ some method → Passed queries
  unfolding glob_stem str_eq
  queries-Passed method read_method = (
    query_passed "GET" "/query" _ method read_method refl refl,
    (
      query_passed "GET" "/sparql" _ method read_method refl refl,
      (
        query_passed "GET" "/sparql/" _ method read_method refl refl,
        (
          query_passed "POST" "/query" _ method read_method refl refl,
          (
            query_passed "POST" "/sparql" _ method read_method refl refl,
            (query_passed "POST" "/sparql/" _ method read_method refl refl, tt),
          ),
        ),
      ),
    ),
  )

  -- The data routes before the one of the method.
  abbrev earlier : DataMethod → List DataMethod
  earlier head = []
  earlier get = head ∷ []
  earlier put = head ∷ get ∷ []
  earlier post = head ∷ get ∷ put ∷ []
  earlier delete = head ∷ get ∷ put ∷ post ∷ []

  abbrev data_routes_of : List DataMethod → List (Handler (Program World))
  data_routes_of [] = []
  data_routes_of (m ∷ next) = data_route m ∷ data_routes_of next

  abbrev DiffersFrom : Str → DataMethod → Type 0
  DiffersFrom method m = str_eq (method_text m) method ≡ false

  earlier-Passed :
      (method : Str)
      → request.method ≡ some method
      → (ms : List DataMethod) → All (DiffersFrom method) ms
      → Passed (data_routes_of ms)
  earlier-Passed method read_method [] h = tt
  earlier-Passed method read_method (m ∷ next) (differs, h) = (
    other_method (data_route m) request method read_method (method_text m) refl differs,
    earlier-Passed method read_method next h,
  )

  earlier_differ : (m : DataMethod) → All (DiffersFrom (method_text m)) (earlier m)
  unfolding str_eq
  earlier_differ head = tt
  earlier_differ get = (refl, tt)
  earlier_differ put = (refl, (refl, tt))
  earlier_differ post = (refl, (refl, (refl, tt)))
  earlier_differ delete = (refl, (refl, (refl, (refl, tt))))

  -- The routes are those of the queries, the earlier ones for data, the one of the method, and others.
  split_named :
      (m : DataMethod)
      → (after : List (Handler (Program World))) × (named S handle_description_get
            ++ last S handle_description_get
          ≡ queries ++ (data_routes_of (earlier m) ++ data_route m ∷ after))
  split_named head = (_, refl)
  split_named get = (_, refl)
  split_named put = (_, refl)
  split_named post = (_, refl)
  split_named delete = (_, refl)

  -- The path does not begin with an asterisk.
  not_asterisk : strn_eq 2 (codes "*") (data_path rest) ≡ false
  unfolding strn_eq
  not_asterisk = refl

  -- A request with one of the five methods, of a path that begins with "/data", is counted, its log
  -- of errors emptied, and given to the handler of its method with the rest of the path as its
  -- glob; what the handler answers, if it answers, is the answer. No handler has set a glob yet.
  pub dispatch_request-data :
      (m : DataMethod) (p : Program World) (response : Response) (q : Request) (p' : Program World)
      → request.method ≡ some (method_text m)
      → request.path_glob ≡ null
      → data_handler S m (globbed request rest) (begun S handle_description_get p)
        ≡ ok (some response, q, p')
      → dispatch_request (table S handle_description_get) request p ≡ ok (response, q, p')
  unfolding dispatch_request
  dispatch_request-data m p response q p' method_read fresh answers =
      let after = begun S handle_description_get p in
      let (later, split) = split_named m in
      let tried =
        try_routes-table S handle_description_get request p
        ∙ (ap (λ hs. try_routes hs request after) split
            ∙ (try_routes-passed queries _ request after
                  (queries-Passed (method_text m) method_read)
                ∙ (try_routes-passed (data_routes_of (earlier m)) _ request after
                      (earlier-Passed (method_text m) method_read (earlier m) (earlier_differ m))
                    ∙ try_routes-answered (data_route m) later request (globbed request rest) q
                        after p' response
                        (same_method (data_route m) request (method_text m) method_read
                            (method_text m) refl
                            ((str_eq_iff (method_text m) (method_text m)).1 refl)
                          ∙ path_matches-data request rest read fresh)
                        answers))) in
      ground (arith, read, not_asterisk, tried)
