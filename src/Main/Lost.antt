-- ===== src/Main/Lost.antt =====
-- The routes of src/redstore.c for a request whose handler gives no response.
use redstore.Base.{
  ◌≡◌, refl, ◌∙◌, true, false, Option, none, some, List, take, drop, All, String, ok, Str, codes,
  str_eq, strn_eq,
}
use redstore.Request.{Request}
use redstore.Response.{Response}
use redstore.Format.{is_html_format}
use redstore.Server.{
  Handler, HandlerFunc, no_data, glob_stem, method_matches, path_matches, match_route,
}
use redstore.Server.Dispatch.{dispatch_request}
use redstore.Platform.{Platform}
use redstore.Pages.{message_format}
use redstore.Pages.Message.{message_response}
use redstore.Program.{Program, Action, handler}
use redstore.Description.{StoreInfo, Namespaces}
use redstore.Description.Answer.{handle_description_get}
use redstore.Description.Lost.{FindsNoStorage, handle_description_get-none}
use redstore.Main.{route, any_route, remove_trailing_slash, without_slash}
use redstore.Main.Routes.{
  Unmatched-of_map, as_handler, table, named, begun, try_routes-table, try_routes-passed,
  try_routes-declined,
}
use redstore.Main.Unsupported.{missing_route-answer, dispatched}

abbrev pub description_path : Str
description_path = codes "/description"

-- A request for the description.
abbrev pub described : Request → Request
described asked = record asked { method = some (codes "GET"); path = some description_path }

module _ (S : Platform) (ns : Namespaces S) (info : StoreInfo) (asked : Request)
    (p : Program S.World) (format_str : Str)
    (speaks : message_format S (described asked) ≡ ok (some format_str)) where
  open S use {World}

  abbrev request : Request
  request = described asked

  abbrev get_description : Action World (Option Response)
  get_description = handle_description_get S ns info

  abbrev after : Program World
  after = begun S get_description p

  abbrev earlier : List (Handler (Program World))
  earlier = take 19 (named S get_description)

  earlier-Unmatched : All (λ it. match_route it request ≡ ok (false, request)) earlier
  unfolding match_route method_matches path_matches glob_stem str_eq strn_eq
  earlier-Unmatched = Unmatched-of_map earlier request refl

  -- The two routes behind the one for the description.
  abbrev later : List (Handler (Program World))
  later = drop 20 (named S get_description)

  later-Unmatched : All (λ it. match_route it request ≡ ok (false, request)) later
  unfolding match_route method_matches path_matches glob_stem str_eq strn_eq
  later-Unmatched = Unmatched-of_map later request refl

  abbrev get_route : String → HandlerFunc (Program World) → Handler (Program World)
  get_route path func = as_handler (route "GET" path func no_data)

  description_route-match :
      match_route (get_route "/description" (handler get_description)) request ≡ ok (true, request)
  unfolding match_route method_matches path_matches glob_stem str_eq strn_eq
  description_route-match = refl

  abbrev slash_route : Handler (Program World)
  slash_route = as_handler (any_route (some (codes "GET")) (handler remove_trailing_slash) no_data)

  slash_route-match : match_route slash_route request ≡ ok (true, request)
  unfolding match_route method_matches path_matches str_eq
  slash_route-match = refl

  slash_route-declines : remove_trailing_slash request after ≡ ok (none, request, after)
  unfolding remove_trailing_slash without_slash
  slash_route-declines = refl

  -- GET of /description for statements, when no storage can be made: as the handler gives no response, the
  -- answer is the page for paths that are not supported, with 404. The request accepts a format of
  -- the messages, and its URL is known.
  pub dispatch_request-no_storage :
      FindsNoStorage S ns info request after
      → dispatch_request (table S get_description) request p
        ≡ ok (
          message_response S (is_html_format format_str) 404 (codes "Unsupported path.") none,
          request,
          after,
        )
  dispatch_request-no_storage lost =
      let routes =
        try_routes-table S get_description request p
        ∙ (try_routes-passed earlier _ request after earlier-Unmatched
            ∙ (try_routes-declined _ _ request request request after after description_route-match
                  (handle_description_get-none S ns info request after lost)
                ∙ (try_routes-passed later _ request after later-Unmatched
                    ∙ (try_routes-declined _ _ request request request after after slash_route-match
                          slash_route-declines
                        ∙ missing_route-answer S get_description request p (codes "GET")
                            description_path format_str refl refl speaks)))) in
      dispatched S get_description request p (codes "GET") description_path format_str refl refl
        speaks _ after (λ e. cc e) routes
