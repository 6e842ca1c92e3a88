-- ===== src/Main/Unsupported.antt =====
-- What src/redstore.c answers when no named route matches: a redirect, or a 404.
use redstore.Base.{
  ℕ, ◌≡◌, refl, ap, ◌∙◌, ◌≢◌, inl, inr, Bool, true, false, Option, none, some, [], ◌∷◌, ◌++◌, arith,
  ◌==◌, if◌then◌else◌, ==_iff, Bool-cases, Result, ok, Str, codes, str_eq, str_eq_iff,
  strn_eq-str_eq,
}
use redstore.Request.{Request, not_null}
use redstore.Response.{Response}
use redstore.Response.Page.{IsFresh, html_type, response_new_redirect_lem}
use redstore.Server.{Handler, no_data, method_matches, path_matches, match_route}
use redstore.Server.Dispatch.{try_routes, dispatch_request}
use redstore.Platform.{Platform, log_debug}
use redstore.Format.{is_html_format}
use redstore.Pages.{message_format}
use redstore.Pages.Message.{message_response, page_new_with_message_lem}
use redstore.Program.Monad.{◌>>=◌, pure}
use redstore.Program.Steps.{>>=-step}
use redstore.Program.{Program, lift, handler, Action, redstore_log}
use redstore.Main.{any_route, redirect_to, without_slash, remove_trailing_slash, handle_not_found}
use redstore.Main.Routes.{
  as_handler, match_route-method, method_matches-read, try_routes-answered, table, NoneMatches,
  named, last, begun, try_routes-table, try_routes-passed,
}

-- The path without its last slash.
without_slash-slash : (c : ℕ) (s : Str) → without_slash (c ∷ s ++ b'/' ∷ []) ≡ ok (some (c ∷ s))
unfolding without_slash
without_slash-slash c [] = refl
without_slash-slash c (d ∷ s) = rw (without_slash-slash d s) refl

-- A path that does not end with a slash.
without_slash-none :
    (c : ℕ) (s : Str) → ((t : Str) → c ∷ s ≢ t ++ b'/' ∷ []) → without_slash (c ∷ s) ≡ ok none
unfolding without_slash
without_slash-none c [] h = elim (Bool-cases (c == b'/')) [
  | inl slash ↦ absurd (h [] (ap (λ d. d ∷ []) ((==_iff c b'/').0 slash)))
  | inr other ↦ rw other refl
]
without_slash-none c (d ∷ s) h =
    rw (without_slash-none d s (λ t e. h (c ∷ t) (ap (λ u. c ∷ u) e))) refl

-- A response that is made, as the answer of an action.
abbrev redirected :
    {W : Type 0}
    → Result Response
    → Request
    → Program W
    → Result (Option Response × Request × Program W)
redirected made = lift made >>= λ response. pure (some response)

longer_star : (c : ℕ) (s : Str) → c ∷ s ++ b'/' ∷ [] ≢ codes "*"
longer_star c [] e = cc e
longer_star c (d ∷ s) e = cc e

module _ (S : Platform) (handle_description_get : Action S.World (Option Response))
    (request : Request) (p : Program S.World) (method path format_str : Str)
    (method_read : request.method ≡ some method) (path_read : request.path ≡ some path)
    (speaks : message_format S request ≡ ok (some format_str)) where
  abbrev not_supported : Response
  not_supported =
      message_response S (is_html_format format_str) 404 (codes "Unsupported path.") none

  abbrev slash_route : Handler (Program S.World)
  slash_route = as_handler (any_route (some (codes "GET")) (handler remove_trailing_slash) no_data)

  abbrev missing_route : Handler (Program S.World)
  missing_route = as_handler (any_route none (handler (handle_not_found S)) no_data)

  abbrev matching : Bool → Result (Bool × Request)
  matching b = ok (b, request)

  matching-if : (b : Bool) → (if b then matching true else matching false) ≡ matching b
  matching-if true = refl
  matching-if false = refl

  slash_route-match :
      (b : Bool) → str_eq (codes "GET") method ≡ b → match_route slash_route request ≡ matching b
  unfolding path_matches
  slash_route-match b e =
      match_route-method slash_route request b
        (method_matches-read (codes "GET") method request method_read ∙ ap ok e)
      ∙ matching-if b

  missing_route-match : match_route missing_route request ≡ matching true
  unfolding match_route method_matches path_matches
  missing_route-match = refl

  abbrev after : Program S.World
  after = begun S handle_description_get p

  pub missing_route-answer :
      try_routes (missing_route ∷ []) request after ≡ ok (some not_supported, request, after)
  missing_route-answer =
      try_routes-answered missing_route [] request request request after after not_supported
        missing_route-match
        (unfold handle_not_found in
          page_new_with_message_lem S log_debug 404 (codes "Unsupported path.") request after
            format_str refl (λ e. cc e) (unfold redstore_log in refl) speaks)

  abbrev read_path : Option Str → Result (Str × Request × Program S.World)
  read_path o = lift (not_null o) request after

  abbrev read_slash : Result (Option Str) → Result (Option Str × Request × Program S.World)
  read_slash r = lift r request after

  slash_route-func :
      (tmp : Option Str)
      → without_slash path ≡ ok tmp
      → slash_route.func request no_data after ≡ redirect_to tmp request after
  unfolding remove_trailing_slash
  slash_route-func tmp e =
      >>=-step (lift (not_null request.path)) _ (ap read_path path_read)
      ∙ >>=-step (lift (without_slash path)) redirect_to (ap read_slash e)

  -- How the request passes the routes.
  to_last :
      NoneMatches S handle_description_get request
      → try_routes (table S handle_description_get) request p
        ≡ try_routes (last S handle_description_get) request after
  to_last none_matches =
      try_routes-table S handle_description_get request p
      ∙ try_routes-passed (named S handle_description_get) (last S handle_description_get) request
          after none_matches

  -- A request, not for the asterisk, is answered as its routes say.
  pub dispatched :
      (response : Response) (q : Program S.World)
      → path ≢ codes "*"
      → try_routes (table S handle_description_get) request p ≡ ok (some response, request, q)
      → dispatch_request (table S handle_description_get) request p ≡ ok (response, request, q)
  unfolding dispatch_request
  dispatched response q not_star e = ground (
    arith,
    path_read,
    strn_eq-str_eq 2 (codes "*") path (omega arith),
    str_eq_iff (codes "*") path,
    e,
  )

  -- A request that no named route matches, with another method than GET, is counted and answered
  -- with 404 by the program's own page. Its path is not the asterisk, and it accepts a format of
  -- the messages.
  pub dispatch_request-unsupported :
      path ≢ codes "*"
      → NoneMatches S handle_description_get request
      → str_eq (codes "GET") method ≡ false
      → dispatch_request (table S handle_description_get) request p
        ≡ ok (not_supported, request, after)
  dispatch_request-unsupported not_star none_matches other =
      dispatched not_supported after not_star (
        to_last none_matches
        ∙ try_routes-passed (slash_route ∷ []) (missing_route ∷ []) request after
            (slash_route-match false other, tt)
        ∙ missing_route-answer)

-- A request for GET that no named route matches, of a path that ends with a slash and more before
-- it, is counted and redirected with 301 to the path without that slash. The request accepts a
-- format of the messages.
pub dispatch_request-trailing_slash :
    (S : Platform) (handle_description_get : Action S.World (Option Response)) (request : Request)
    (p : Program S.World) (format_str : Str) (c : ℕ) (s : Str)
    (method_read : request.method ≡ some (codes "GET"))
    (path_read : request.path ≡ some (c ∷ s ++ b'/' ∷ []))
    (speaks : message_format S request ≡ ok (some format_str))
    → NoneMatches S handle_description_get request
    → (r : Response) × (dispatch_request (table S handle_description_get) request p
        ≡ ok (r, request, begun S handle_description_get p))
      × IsFresh r 301 (html_type ++ record { key = codes "Location"; value = some (c ∷ s) } ∷ [])
unfolding str_eq
dispatch_request-trailing_slash S handle_description_get request p format_str c s method_read
      path_read speaks none_matches =
    let (r, er, fresh, _) = response_new_redirect_lem (c ∷ s) 301 (λ e. cc e) refl in
    let after = begun S handle_description_get p in
    (
      r,
      dispatched S handle_description_get request p (codes "GET") (c ∷ s ++ b'/' ∷ []) format_str
          method_read path_read speaks r after (longer_star c s)
          (to_last S handle_description_get request p (codes "GET") (c ∷ s ++ b'/' ∷ []) format_str
              method_read path_read speaks none_matches
            ∙ try_routes-answered _ _ request request request after after r
                (slash_route-match S handle_description_get request p (codes "GET")
                  (c ∷ s ++ b'/' ∷ []) format_str method_read path_read speaks true refl)
                (slash_route-func S handle_description_get request p (codes "GET")
                    (c ∷ s ++ b'/' ∷ []) format_str method_read path_read speaks (some (c ∷ s))
                    (without_slash-slash c s)
                  ∙ ap (λ t. redirected t request after) er)),
      fresh,
    )
