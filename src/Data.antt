-- ===== src/Data.antt =====
-- src/data.c: graphs as resources, under /data and by name.
pub mod Handlers
pub mod Targets
pub mod Store
pub mod Contents
pub mod Removal
pub mod Repeat
pub mod Sent
pub mod NewGraph
pub mod Created
mod Tests
use redstore.Base.{
  ℕ, ◌+◌, ◌/◌, Bool, true, false, ◌||◌, Option, none, some, [], ◌∷◌, ◌++◌, ltb, if◌then◌else◌, ok,
  fault, Str, codes,
}
use redstore.Request.{Request, live, freed, Pointer, null, not_null, argument_exists, get_argument}
use redstore.Request.Setters.{get_url}
use redstore.Response.{Response, response_new}
use redstore.GenId.{genid}
use redstore.Platform.{Platform, Stream, log_debug, log_info, log_error}
use redstore.Program.{Program, Action, call, lift, logged}
use redstore.Program.Monad.{◌>>=◌, ◌>>◌, pure, the_request, the_program, set_request, set_program}
use redstore.Formatters.{format_graph_stream}
use redstore.Update.{
  StreamProcessor, message, has_errors, load_stream_into_new_graph, load_stream_into_graph,
  clear_and_load_stream_into_graph, parse_data_from_request_body,
}

-- The arguments that say which graph is meant.
pub record Target : Type 0 where
  pub has_graph : Bool
  pub has_default : Bool
  pub has_path : Bool

abbrev is_set : Pointer → Bool
is_set null = false
is_set (live s) = true
is_set freed = true

abbrev pub target_of : Request → Target
target_of request = record {
  has_graph = argument_exists request (codes "graph");
  has_default = argument_exists request (codes "default");
  has_path = is_set request.path_glob;
}

-- `redhttp_request_get_url`; the URL is kept in the request.
abbrev pub request_url : {W : Type 0} → Action W Str
request_url request p =
    let (request', url) = get_url request in
    elim (not_null url) [ ok s ↦ ok (s, request', p) | fault broken ↦ fault broken ]

-- `redstore_genid`
abbrev next_id : {W : Type 0} → ℕ → Action W Str
next_id random request p =
    let (id, base_id) = genid random p.base_id in ok (id, request, record p { base_id = base_id })

module _ (S : Platform) where
  open S use {World, Node, Uri, Statement}

  abbrev node_of : Option Uri → Action World (Option Node)
  node_of none = pure none
  node_of (some graph_uri) = call (S.new_node_from_uri graph_uri)

  abbrev relative_node : Str → Option Uri → Action World (Option Node)
  relative_node reference none = pure none
  relative_node reference (some base_uri) =
      call (S.new_uri_relative_to_base base_uri reference) >>= node_of

  unfoldable pub new_graph_node : Str → Action World (Option Node)
  new_graph_node base_uri_str = do
    id ← next_id S.random
    base_uri ← call (S.new_uri base_uri_str)
    relative_node (codes "/data/" ++ id) base_uri

  abbrev graph_node_from : Option Str → Option Uri → Action World (Option Node)
  graph_node_from graph none = pure none
  graph_node_from none (some base_uri) = call (S.new_uri_from_uri base_uri) >>= node_of
  graph_node_from (some graph) (some base_uri) = relative_node graph (some base_uri)

  unfoldable pub get_graph_node : Action World (Option Node)
  get_graph_node = do
    url ← request_url
    base_uri ← call (S.new_uri url)
    request ← the_request
    graph_node_from (get_argument request (codes "graph")) base_uri

  -- The loops that delete, up to a NULL; they count the failures.
  unfoldable pub remove_graphs : Stream Node → ℕ → Action World ℕ
  remove_graphs [] err = pure err
  remove_graphs ((none, messages) ∷ next) err = pure err
  remove_graphs ((some graph, messages) ∷ next) err = do
    failed ← call (S.context_remove_statements graph)
    logged messages
    remove_graphs next (if failed then err + 1 else err)

  unfoldable pub remove_triples : Stream Statement → ℕ → Action World ℕ
  remove_triples [] err = pure err
  remove_triples ((none, messages) ∷ next) err = pure err
  remove_triples ((some statement, messages) ∷ next) err = do
    failed ← call (S.remove_statement statement)
    logged messages
    remove_triples next (if failed then err + 1 else err)

  abbrev remove_rest : ℕ → Option (Stream Statement) → Action World (Option Response)
  remove_rest err none = message S log_error 500 (codes "Failed to stream model.")
  remove_rest err (some stream) = do
    err' ← remove_triples stream err
    errors ← has_errors
    if ltb 0 err' || errors
        then message S log_error 500 (codes "Error deleting some statements.")
        else message S log_info 200 (codes "Successfully deleted all statements.")

  abbrev remove_listed : Option (Stream Node) → Action World (Option Response)
  remove_listed none = message S log_error 500 (codes "Failed to get list of graphs.")
  remove_listed (some iterator) = do
    err ← remove_graphs iterator 0
    stream ← call S.as_stream
    remove_rest err stream

  unfoldable pub remove_all_statements : Action World (Option Response)
  unfolding remove_graphs remove_triples
  remove_all_statements = call S.get_contexts >>= remove_listed
