-- ===== src/Server/Dispatch/Routes.antt =====
-- Which route answers a request (src/redhttp/server.c).
use redstore.Base.{
  ◌≡◌, sym, ap, ◌∙◌, ◌≢◌, ◌⊎◌, inl, inr, true, none, some, List, [], ◌∷◌, ◌++◌, arith, ok, Str,
  codes, str_eq_iff, strn_eq-str_eq,
}
use redstore.Request.{Request}
use redstore.Response.{Response}
use redstore.Server.{Handler, match_route}
use redstore.Server.Match.{MethodFits, PathFits, IsReadable, match_route_lem}
use redstore.Server.Dispatch.{Answer, try_routes, dispatch_request}

abbrev pub answered : {W : Type 0} → Response × Request × W → Answer W
answered (response, request, world) = (some response, request, world)

-- The handler answers the request as the match leaves it, in this state of the program.
abbrev pub Answers :
    {W : Type 0} → Handler W → Request → W → (Request → Response × Request × W) → Type 0
Answers it request world respond =
    (request' : Request)
    → match_route it request ≡ ok (true, request')
    → it.func request' it.user_data world ≡ ok (answered (respond request'))

-- A route that fits is tried, and its handler declines, by returning NULL.
abbrev pub Declines : {W : Type 0} → Handler W → Request → W → Request → W → Type 0
Declines it request world next world' =
    (request' : Request) × (match_route it request ≡ ok (true, request'))
    × (it.func request' it.user_data world ≡ ok (none, next, world'))

-- The routes are passed by, with what the handlers among them that decline do to the request and the
-- state of the program: a route does not fit, or its handler declines.
abbrev pub Passed : {W : Type 0} → List (Handler W) → Str → Str → Request → W → Request → W → Type 0
Passed [] method path request world last world' = (request ≡ last) × (world ≡ world')
Passed {W} (it ∷ before) method path request world last world' =
    (it.path ≢ some [])
    × (((¬ (MethodFits it.method method × PathFits it.path path))
          × Passed before method path request world last world')
        ⊎ ((next : Request) × (w : W) × Declines it request world next w
            × IsReadable next method path
            × Passed before method path next w last world'))

pub same-IsReadable :
    (request last : Request) (method path : Str)
    → request ≡ last
    → IsReadable request method path
    → IsReadable last method path
same-IsReadable request last method path e h = record {
  method_read = sym (ap (λ q. q.method) e) ∙ h.method_read;
  path_read = sym (ap (λ q. q.path) e) ∙ h.path_read;
  no_glob = sym (ap (λ q. q.path_glob) e) ∙ h.no_glob;
}

module _ {W : Type 0} (method path : Str) where
  Passed-IsReadable :
      (before : List (Handler W)) (request last : Request) (world world' : W)
      → IsReadable request method path
      → Passed before method path request world last world'
      → IsReadable last method path
  Passed-IsReadable [] request last world world' h (e, _) =
      same-IsReadable request last method path e h
  Passed-IsReadable (it ∷ before) request last world world' h (_, inl (_, k)) =
      Passed-IsReadable before request last world world' h k
  Passed-IsReadable (it ∷ before) request last world world' h (_, inr (next, w, _, h', k)) =
      Passed-IsReadable before next last w world' h' k

  try_routes-append :
      (before after : List (Handler W)) (request last : Request) (world world' : W)
      → IsReadable request method path
      → Passed before method path request world last world'
      → try_routes (before ++ after) request world ≡ try_routes after last world'
  unfolding try_routes
  try_routes-append [] after request last world world' h (e, e') =
      ap (λ r. try_routes after r world) e ∙ ap (try_routes after last) e'
  try_routes-append (it ∷ before) after request last world world' h (non_empty, inl (no_fit, k)) =
      elim (match_route_lem it request method path h non_empty) [
        | inl (request', e, fits, _, _) ↦ absurd (no_fit fits)
        | inr (e, _) ↦
            rw (e, try_routes) (try_routes-append before after request last world world' h k)
      ]
  try_routes-append (it ∷ before) after request last world world' h
        (non_empty, inr (next, w, (request', e, declined), h', k)) =
      rw (e, try_routes)
        (rw (declined, try_routes) (try_routes-append before after next last w world' h' k))

  try_routes-first :
      (it : Handler W) (after : List (Handler W)) (request : Request) (world : W)
      (respond : Request → Response × Request × W)
      → IsReadable request method path
      → it.path ≢ some []
      → MethodFits it.method method × PathFits it.path path
      → Answers it request world respond
      → (request' : Request) × (match_route it request ≡ ok (true, request'))
        × (request'.method ≡ some method)
        × (request'.path ≡ some path)
        × (try_routes (it ∷ after) request world ≡ ok (answered (respond request')))
  unfolding try_routes
  try_routes-first it after request world respond h non_empty fits answers =
      elim (match_route_lem it request method path h non_empty) [
        | inl (request', e, _, em, ep) ↦
            (request', e, em, ep, rw (e, try_routes) (rw (answers request' e)))
        | inr (_, no_fit) ↦ absurd (no_fit fits)
      ]

-- A route that fits a request answers it, if its handler does, once the routes before it have been
-- passed by: those that do not fit, and those whose handler declines and leaves the method and the
-- path, with what these do to the request and the state. The handler is given the request with its
-- method and path, as the match leaves it. The path of the request is not the asterisk, no glob is set
-- before any of these routes, and neither the route nor one before it has an empty path.
pub dispatch_request-first :
    {W : Type 0} (before after : List (Handler W)) (it : Handler W) (request last : Request)
    (world world' : W) (respond : Request → Response × Request × W) (method path : Str)
    → IsReadable request method path
    → path ≢ codes "*"
    → Passed before method path request world last world'
    → it.path ≢ some []
    → MethodFits it.method method × PathFits it.path path
    → Answers it last world' respond
    → (request' : Request) × (match_route it last ≡ ok (true, request'))
      × (request'.method ≡ some method)
      × (request'.path ≡ some path)
      × (dispatch_request (before ++ it ∷ after) request world ≡ ok (respond request'))
unfolding dispatch_request
dispatch_request-first before after it request last world world' respond method path h not_star k
      non_empty fits answers =
    let readable = Passed-IsReadable method path before request last world world' h k in
    let (request', e, em, ep, first) =
      try_routes-first method path it after last world' respond readable non_empty fits answers in
    let passed = try_routes-append method path before (it ∷ after) request last world world' h k in
    let is_star = strn_eq-str_eq 2 (codes "*") path (omega arith) in
    (
      request',
      e,
      em,
      ep,
      ground (arith, h.path_read, is_star, str_eq_iff (codes "*") path, passed ∙ first),
    )
