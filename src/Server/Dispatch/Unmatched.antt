-- ===== src/Server/Dispatch/Unmatched.antt =====
-- What src/redhttp/server.c answers when no route fits the request.
use redstore.Base.{
  ℕ, ◌<◌, ◌≡◌, refl, ◌∙◌, ◌≢◌, inl, inr, Bool, true, false, Option, none, some, List, [], ◌∷◌, ◌++◌,
  arith, ◌==◌, if◌then◌else◌, Bool-cases, length, All, ok, Str, codes, str_eq, str_eq_iff,
  strn_eq-str_eq,
}
use redstore.Headers.{Headers, headers_add}
use redstore.Request.{Request}
use redstore.Response.{Response, is_status, add_header}
use redstore.Response.Page.{response_new_empty_lem, response_new_error_page_lem}
use redstore.Server.{Handler}
use redstore.Server.Match.{MethodFits, PathFits, IsReadable, match_route_lem}
use redstore.Server.Allowed.{allow_text, allow_message, check_allowed_responses}
use redstore.Server.Allowed.Text.{allow_text-lt}
use redstore.Server.Dispatch.{try_routes, has_get, has_path, dispatch_unmatched, dispatch_request}
use redstore.Server.Dispatch.Served.{
  true-false, unmatched_status, UnmatchedStatus, unmatched_status_lem,
}

-- An answer has an Allow header with the text that is made of the handlers of the path.
abbrev pub HasAllow : {W : Type 0} → List (Handler W) → Option Str → Response → Type 0
HasAllow handlers path r =
    (text : Str) × (allow_text handlers path ≡ ok text)
    × ((first : Headers) × (r.headers
          ≡ first ++ record { key = codes "Allow"; value = some text } ∷ []))

-- The response with the header.
abbrev with_allow : Response → Str → Response
with_allow r text = record r {
  headers = r.headers ++ record { key = codes "Allow"; value = some text } ∷ [];
}

add_allow :
    (r : Response) (text : Str)
    → 0 < length text
    → add_header r (codes "Allow") (some text) ≡ ok (with_allow r text)
unfolding add_header headers_add
add_allow r [] h = absurd (omega arith)
add_allow r (c ∷ text) h = refl

check_allowed_responses_lem :
    {W : Type 0} (status : ℕ) (handlers : List (Handler W)) (path : Option Str)
    → is_status status ≡ true
    → (r : Response) × (check_allowed_responses status handlers path ≡ ok r)
      × (r.status_code ≡ status)
      × HasAllow handlers path r
unfolding check_allowed_responses
check_allowed_responses_lem status handlers path h =
    let (text, et, some_bytes, _) = allow_text-lt handlers path in
    elim (Bool-cases (status == 200)) [
      | inl good ↦
          let (r, er, fresh, _, _) = response_new_empty_lem 200 refl in
          (
            with_allow r text,
            rw (et, check_allowed_responses) (rw (good, er) (add_allow r text some_bytes)),
            fresh.status ∙ ground arith,
            (text, et, (r.headers, refl)),
          )
      | inr bad ↦
          let (r, er, fresh, _) =
            response_new_error_page_lem status (some (allow_message text)) h in
          (
            with_allow r text,
            rw (et, check_allowed_responses) (rw (bad, er) (add_allow r text some_bytes)),
            fresh.status,
            (text, et, (r.headers, refl)),
          )
    ]

-- An answer has the status of the case, and an Allow header unless it is a 404 or for HEAD.
abbrev IsUnmatched : {W : Type 0} → List (Handler W) → Str → Str → Response → Type 0
IsUnmatched handlers method path r =
    (r.status_code ≡ unmatched_status handlers method path)
    × (str_eq (codes "HEAD") method ≡ false
        → has_path handlers path ≡ true
        → HasAllow handlers (some path) r)

is_status-choice :
    (b : Bool) (m n : ℕ)
    → is_status m ≡ true
    → is_status n ≡ true
    → is_status (if b then m else n) ≡ true
is_status-choice true m n h k = h
is_status-choice false m n h k = k

dispatch_unmatched_lem :
    {W : Type 0} (handlers : List (Handler W)) (method path : Str)
    → (r : Response) × (dispatch_unmatched handlers method path ≡ ok r)
      × IsUnmatched handlers method path r
unfolding dispatch_unmatched
dispatch_unmatched_lem handlers method path =
    let is_head = strn_eq-str_eq 5 (codes "HEAD") method (omega arith) in
    let is_options = strn_eq-str_eq 8 (codes "OPTIONS") method (omega arith) in
    elim (Bool-cases (str_eq (codes "HEAD") method)) [
      | inl head ↦
          let (r, er, fresh, _, _) =
            response_new_empty_lem (if has_get handlers path then 200 else 404)
              (is_status-choice (has_get handlers path) 200 404 refl refl) in
          (
            r,
            rw (is_head, head, dispatch_unmatched) er,
            (rw head fresh.status, λ no_head. absurd (true-false head no_head)),
          )
      | inr other ↦ elim (Bool-cases (has_path handlers path)) [
        | inl known ↦
            let (r, er, status, allow) =
              check_allowed_responses_lem (if str_eq (codes "OPTIONS") method then 200 else 405)
                handlers (some path)
                (is_status-choice (str_eq (codes "OPTIONS") method) 200 405 refl refl) in
            (
              r,
              rw (is_head, other, known, is_options, dispatch_unmatched) er,
              (rw (other, known) status, λ _ _. allow),
            )
        | inr unknown ↦
            let (r, er, fresh, _) = response_new_error_page_lem 404 none refl in
            (
              r,
              rw (is_head, other, unknown, dispatch_unmatched) er,
              (rw (other, unknown) fresh.status, λ _ has. absurd (true-false has unknown)),
            )
      ]
    ]

-- No route fits the request, and none has an empty path.
abbrev pub NoneFits : {W : Type 0} → List (Handler W) → Str → Str → Type 0
NoneFits handlers method path =
    All (λ it. (it.path ≢ some []) × ¬ (MethodFits it.method method × PathFits it.path path))
      handlers

try_routes-none :
    {W : Type 0} (handlers : List (Handler W)) (request : Request) (world : W) (method path : Str)
    → IsReadable request method path
    → NoneFits handlers method path
    → try_routes handlers request world ≡ ok (none, request, world)
unfolding try_routes
try_routes-none [] request world method path h k = refl
try_routes-none (it ∷ next) request world method path h ((non_empty, no_fit), k) =
    elim (match_route_lem it request method path h non_empty) [
      | inl (request', e, fits, _, _) ↦ absurd (no_fit fits)
      | inr (e, _) ↦ rw (e, try_routes) (try_routes-none next request world method path h k)
    ]

dispatch_request-answered :
    {W : Type 0} (handlers : List (Handler W)) (request : Request) (world : W) (method path : Str)
    → IsReadable request method path
    → path ≢ codes "*"
    → NoneFits handlers method path
    → (r : Response) × (dispatch_request handlers request world ≡ ok (r, request, world))
      × IsUnmatched handlers method path r
unfolding dispatch_request
dispatch_request-answered handlers request world method path h not_star k =
    let (r, er, answer) = dispatch_unmatched_lem handlers method path in
    let is_star = strn_eq-str_eq 2 (codes "*") path (omega arith) in
    (
      r,
      ground (
        arith,
        h.method_read,
        h.path_read,
        is_star,
        str_eq_iff (codes "*") path,
        try_routes-none handlers request world method path h k,
        er,
      ),
      answer,
    )

-- A request that no route fits is answered, and not changed: with 404 if no handler has exactly its
-- path, else with 405, or 200 for OPTIONS; HEAD gets 200 if a handler for GET has exactly the path, and
-- else 404. The path is not the asterisk, no handler has an empty path, and no glob is set.
pub dispatch_request-unmatched :
    {W : Type 0} (handlers : List (Handler W)) (request : Request) (world : W) (method path : Str)
    → IsReadable request method path
    → path ≢ codes "*"
    → NoneFits handlers method path
    → (r : Response) × (dispatch_request handlers request world ≡ ok (r, request, world))
      × UnmatchedStatus handlers method path r.status_code
dispatch_request-unmatched handlers request world method path h not_star k =
    let (r, e, (status, _)) =
      dispatch_request-answered handlers request world method path h not_star k in
    (r, e, rw status (unmatched_status_lem handlers method path))

-- If no route fits a request whose path some handler has, and its method is not HEAD, the answer, a 405
-- or a 200, has an Allow header with the text that is made of the handlers of the path.
dispatch_request-Allow :
    {W : Type 0} (handlers : List (Handler W)) (request : Request) (world : W) (method path : Str)
    → IsReadable request method path
    → path ≢ codes "*"
    → NoneFits handlers method path
    → str_eq (codes "HEAD") method ≡ false
    → has_path handlers path ≡ true
    → (r : Response) × (dispatch_request handlers request world ≡ ok (r, request, world))
      × (r.status_code ≡ (if str_eq (codes "OPTIONS") method then 200 else 405))
      × HasAllow handlers (some path) r
dispatch_request-Allow handlers request world method path h not_star k other known =
    let (r, e, (status, allow)) =
      dispatch_request-answered handlers request world method path h not_star k in
    (r, e, rw (other, known) at status, allow other known)
