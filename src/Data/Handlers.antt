-- ===== src/Data/Handlers.antt =====
-- The handlers of src/data.c.
use redstore.Base.{
  ℕ, zero, suc, Bool, true, false, ◌&&◌, ◌||◌, not, Option, none, some, if◌then◌else◌, Str, codes,
}
use redstore.Response.{Response, response_new}
use redstore.Platform.{Platform, Stream, log_debug, log_info, log_error}
use redstore.Program.{Action, call, lift}
use redstore.Program.Monad.{◌>>=◌, pure, the_request}
use redstore.Formatters.{format_graph_stream}
use redstore.Update.{
  message, load_stream_into_new_graph, load_stream_into_graph, clear_and_load_stream_into_graph,
  parse_data_from_request_body,
}
use redstore.Data.{
  Target, target_of, request_url, new_graph_node, get_graph_node, remove_all_statements,
}

-- How the attempts to find a name for a new graph end.
pub data Attempts (N : Type 0) : Type 0 where
  no_node gave_up : Attempts N
  found : N → Attempts N

abbrev pub both_given : Target → Bool
both_given target = target.has_graph && target.has_default

abbrev pub none_given : Target → Bool
none_given target = not target.has_graph && not target.has_path && not target.has_default

module _ (S : Platform) where
  open S use {World, Node, Statement}

  abbrev Answer : Type 0
  Answer = Action World (Option Response)

  -- What is done with one node, and what if the graph exists already.
  abbrev pub attempt : Action World (Attempts Node) → Option Node → Action World (Attempts Node)
  attempt again none = pure no_node
  attempt again (some graph_node) = do
    exists ← call (S.contains_context graph_node)
    if exists then again else pure (found graph_node)

  unfoldable pub find_new_graph : ℕ → Action World (Attempts Node)
  find_new_graph zero = pure gave_up
  find_new_graph (suc attempts) = do
    url ← request_url
    graph_node ← new_graph_node S url
    attempt (find_new_graph attempts) graph_node

  abbrev pub post_to : Attempts Node → Answer
  post_to no_node = message S log_error 500 (codes "Failed to create node for graph identifier.")
  post_to gave_up = message S log_error 500 (codes "Failed to create new graph identifier.")
  post_to (found graph_node) =
      parse_data_from_request_body S (some graph_node)
        λ stream graph. load_stream_into_new_graph S stream graph_node

  unfoldable pub post_to_new_graph : Answer
  unfolding find_new_graph
  post_to_new_graph = find_new_graph 10 >>= post_to

  abbrev both_message : Answer
  both_message =
      message S log_debug 400
        (codes "The 'graph' and 'default' arguments can not be used together.")

  abbrev missing_message : Answer
  missing_message = message S log_debug 400 (codes "Missing graph path or argument.")

  -- The tests that the handlers but POST begin with.
  abbrev on_target : Target → Answer → Answer → Answer
  on_target target default_graph named_graph =
      if both_given target
      then both_message
      else if none_given target
      then missing_message
      else if target.has_default
      then default_graph
      else named_graph

  abbrev pub with_node : (Node → Answer) → Option Node → Answer
  with_node next none = message S log_error 500 (codes "Failed to get node for graph.")
  with_node next (some graph_node) = next graph_node

  abbrev pub not_found : Answer
  not_found = message S log_info 404 (codes "Graph not found.")

  abbrev pub found_response : Answer
  found_response = lift (response_new 200 none) >>= λ response. pure (some response)

  abbrev pub head_node : Node → Answer
  head_node graph_node = do
    exists ← call (S.contains_context graph_node)
    if exists then found_response else not_found

  unfoldable pub handle_data_head : Answer
  handle_data_head = do
    request ← the_request
    on_target (target_of request) found_response (get_graph_node S >>= with_node head_node)

  -- What is sent of a stream, or the answer if there is none.
  abbrev send_stream : Str → Option (Stream Statement) → Answer
  send_stream failure none = message S log_error 500 failure
  send_stream failure (some stream) = format_graph_stream S stream

  abbrev get_default : Answer
  get_default = call S.as_stream >>= send_stream (codes "Failed to stream model.")

  abbrev pub get_node : Node → Answer
  get_node graph_node = do
    exists ← call (S.contains_context graph_node)
    if exists
        then (call (S.context_as_stream graph_node)
            >>= send_stream (codes "Failed to stream context."))
        else not_found

  unfoldable pub handle_data_get : Answer
  handle_data_get = do
    request ← the_request
    on_target (target_of request) get_default (get_graph_node S >>= with_node get_node)

  abbrev pub post_node : Node → Answer
  post_node graph_node = parse_data_from_request_body S (some graph_node) (load_stream_into_graph S)

  abbrev post_on : Target → Answer
  post_on target =
      if both_given target
      then both_message
      else if target.has_default
      then parse_data_from_request_body S none (load_stream_into_graph S)
      else if target.has_graph || target.has_path
      then get_graph_node S >>= with_node post_node
      else post_to_new_graph

  unfoldable pub handle_data_post : Answer
  handle_data_post = do request ← the_request; post_on (target_of request)

  abbrev put_default : Answer
  put_default =
      message S log_debug 501 (codes "PUTing data into the default graph is not implemented.")

  abbrev pub put_node : Node → Answer
  put_node graph_node =
      parse_data_from_request_body S (some graph_node) (clear_and_load_stream_into_graph S)

  unfoldable pub handle_data_put : Answer
  handle_data_put = do
    request ← the_request
    on_target (target_of request) put_default (get_graph_node S >>= with_node put_node)

  abbrev deleted : Bool → Answer
  deleted true = message S log_error 500 (codes "Error while trying to delete graph")
  deleted false = message S log_info 200 (codes "Successfully deleted graph.")

  abbrev pub delete_node : Node → Answer
  delete_node graph_node = do
    exists ← call (S.contains_context graph_node)
    if exists then (call (S.context_remove_statements graph_node) >>= deleted) else not_found

  unfoldable pub handle_data_delete : Answer
  handle_data_delete = do
    request ← the_request
    on_target (target_of request) (remove_all_statements S)
        (get_graph_node S >>= with_node delete_node)
