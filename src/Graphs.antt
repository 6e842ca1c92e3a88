-- ===== src/Graphs.antt =====
-- src/graphs.c: the list of the named graphs.
pub mod Listing
mod Tests
use redstore.Base.{
  ◌+◌, ◌/◌, ◌<◌, Bool, ◌||◌, Option, none, some, List, [], ◌∷◌, ◌++◌, if◌then◌else◌, length, Result,
  ok, fault, Str, codes, strn_eq,
}
use redstore.Url.{url_escape}
use redstore.Request.{Request, not_null}
use redstore.Request.Setters.{get_host}
use redstore.Response.{Response, response_new_with_type}
use redstore.Format.{is_html_format, is_text_format}
use redstore.Platform.{LogMessage, Platform, Stream, log_info, log_error}
use redstore.Program.{Program, Action, call, lift, logged}
use redstore.Program.Monad.{◌>>=◌, ◌>>◌, pure, the_request}
use redstore.Pages.{
  Page, append_string, append_strings, append_escaped, page_new, page_end, message_format,
  page_new_with_message,
}
use redstore.Formatters.{send, output}

-- `strstr(s, t) != NULL`
abbrev begins_with : Str → Str → Bool
begins_with t s = strn_eq (length t) t s

unfoldable pub strstr : Str → Str → Bool
strstr [] t = begins_with t []
strstr (c ∷ s) t = begins_with t (c ∷ s) || strstr s t

-- "http://%s/"
abbrev root_url : Str → Str
root_url host = codes "http://" ++ (host ++ b'/' ∷ [])

abbrev server_root_url : {W : Type 0} → Action W Str
server_root_url request p =
    let (request', host) = get_host request in ok (root_url host, request', p)

module _ (S : Platform) where
  open S use {World, Node, Uri, node_get_uri, uri_as_string}

  -- A node that is NULL or has no URI ends a list.
  abbrev pub node_text : Option Node → Option Str
  node_text none = none
  node_text (some node) = elim (node_get_uri node) [
    | none ↦ none
    | some uri ↦ some (uri_as_string uri)
  ]

  abbrev html_link : Str → Str → Str → Page → Page
  html_link start target uri_str page =
      append_string
        (append_escaped S
          (append_string (append_escaped S (append_string page start) target) (codes "\">"))
          uri_str)
        (codes "</a></li>\n")

  -- One graph: a link to it, or to /data/ with its name escaped.
  unfoldable pub html_item : Str → Str → Page → Result Page
  html_item root uri_str page =
      if strstr uri_str root
      then ok (html_link (codes "<li><a href=\"") uri_str uri_str page)
      else elim (url_escape uri_str) [
        | fault broken ↦ fault broken
        | ok escaped ↦ ok (html_link (codes "<li><a href=\"/data/?graph=") escaped uri_str page)
      ]

  unfoldable pub html_items : Str → Stream Node → Page → Action World Page
  unfolding html_item
  html_items root [] page = pure page
  html_items root ((node, messages) ∷ next) page = elim (node_text node) [
    | none ↦ pure page
    | some uri_str ↦ lift (html_item root uri_str page) >>= λ page'.
        logged messages >> html_items root next page'
  ]

  abbrev html_index : Str → Stream Node → Page → Action World Page
  html_index root [] page = pure (append_string page (codes "<p>No named graphs.</p>\n"))
  html_index root (first ∷ next) page = do
    listed ← html_items root (first ∷ next) (append_string page (codes "<ul>\n"))
    pure (
        append_strings listed (
          codes "</ul>\n"
          ∷ codes
              "<p>This document is also available as <a href=\"/graphs?format=text\">plain text</a>.</p>\n"
          ∷ []))

  unfoldable pub handle_html_graph_index : Stream Node → Action World (Option Response)
  unfolding html_items
  handle_html_graph_index iterator = do
    page ← lift (page_new 200 (some (codes "Named Graphs")))
    root ← server_root_url
    page' ← html_index root iterator page
    response ← lift (page_end S page')
    pure (some response)

  abbrev pub text_item : Option Str → List LogMessage → Action World Unit → Action World Unit
  text_item none messages next = pure tt
  text_item (some uri_str) messages next =
      output S (uri_str ++ b'\n' ∷ []) >> logged messages >> next

  unfoldable pub text_items : Stream Node → Action World Unit
  text_items [] = pure tt
  text_items ((node, messages) ∷ next) = text_item (node_text node) messages (text_items next)

  unfoldable pub handle_text_graph_index : Stream Node → Action World (Option Response)
  unfolding text_items
  handle_text_graph_index iterator = do
    made ← lift (response_new_with_type 200 none (some (codes "text/plain")))
    response ← send S made
    text_items iterator
    pure (some response)

  abbrev index_in : Str → Stream Node → Action World (Option Response)
  index_in format_str iterator =
      if is_text_format format_str
      then handle_text_graph_index iterator
      else if is_html_format format_str
      then handle_html_graph_index iterator
      else page_new_with_message S log_info 406 (codes "No acceptable format supported.")

  abbrev index_of : Option Str → Option (Stream Node) → Action World (Option Response)
  index_of format none =
      page_new_with_message S log_error 500 (codes "Failed to get list of graphs.")
  index_of format (some iterator) = do
    format_str ← lift (not_null format)
    index_in format_str iterator

  unfoldable pub handle_graph_index : Action World (Option Response)
  handle_graph_index = do
    request ← the_request
    format ← lift (message_format S request)
    iterator ← call S.get_contexts
    index_of format iterator
