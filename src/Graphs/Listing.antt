-- ===== src/Graphs/Listing.antt =====
-- The list of the graphs as plain text (src/graphs.c).
use redstore.Base.{
  ◌≡◌, sym, ap, ◌∙◌, Option, none, some, List, [], ◌∷◌, ◌++◌, append_assoc, append-nil, Result, ok,
  Str,
}
use redstore.Request.{Request}
use redstore.Response.Send.{write}
use redstore.Platform.{Platform}
use redstore.Program.{Program, log_all}
use redstore.Program.Calls.{stream_of}
use redstore.Graphs.{node_text, text_item, text_items}

module _ (S : Platform) where
  open S use {World, Node, node_get_uri, uri_as_string}

  -- A line for each graph, up to the first that has no URI.
  abbrev pub line_of : Option Str → Str → Str
  line_of none rest = []
  line_of (some uri_str) rest = uri_str ++ (b'\n' ∷ rest)

  abbrev pub listing : List Node → Str
  listing [] = []
  listing (node ∷ next) = line_of (node_text S (some node)) (listing next)

  write-write : (request : Request) (a b : Str) → write (write request a) b ≡ write request (a ++ b)
  unfolding write
  write-write request a b =
      ap (λ o. record request { socket = record request.socket { output = o } })
        (append_assoc request.socket.output a b)

  write-nil : (request : Request) → write request [] ≡ request
  unfolding write
  write-nil request =
      ap (λ o. record request { socket = record request.socket { output = o } })
        (append-nil request.socket.output)

  abbrev written : Program World → Request → Result (Unit {0} × Request × Program World)
  written p request = ok (tt, request, p)

  abbrev item_then :
      Option Str → List Node → Request → Program World → Result (Unit {0} × Request × Program World)
  item_then text next request p = text_item S text [] (text_items S (stream_of next)) request p

  item_then-listing :
      (text : Option Str) (next : List Node) (request : Request) (p : Program World)
      → ((line : Str)
          → text_items S (stream_of next) (write request line) p
            ≡ written p (write (write request line) (listing next)))
      → item_then text next request p ≡ written p (write request (line_of text (listing next)))
  unfolding log_all
  item_then-listing none next request p rest = ap (written p) (sym (write-nil request))
  item_then-listing (some uri_str) next request p rest =
      rest (uri_str ++ b'\n' ∷ [])
      ∙ ap (written p) (
          write-write request (uri_str ++ b'\n' ∷ []) (listing next)
          ∙ ap (write request) (append_assoc uri_str (b'\n' ∷ []) (listing next)))

  -- The names of the graphs, which the store gives without a message, are written to the client,
  -- each with the end of a line, up to a graph without a name, and nothing else is changed.
  pub text_items-listing :
      (nodes : List Node) (request : Request) (p : Program World)
      → text_items S (stream_of nodes) request p ≡ ok (tt, write request (listing nodes), p)
  unfolding text_items log_all
  text_items-listing [] request p = ap (written p) (sym (write-nil request))
  text_items-listing (node ∷ next) request p =
      item_then-listing (node_text S (some node)) next request p
        (λ line. text_items-listing next (write request line) p)
