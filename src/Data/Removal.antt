-- ===== src/Data/Removal.antt =====
-- Graphs that are deleted, or are not there (src/data.c).
use redstore.Base.{◌≡◌, refl, ◌∙◌, ◌≢◌, ◌↔◌, true, false, Str, codes}
use redstore.Request.{Request}
use redstore.Platform.{Platform, log_info}
use redstore.Program.{Program, redstore_log, log_all}
use redstore.Pages.{page_new_with_message}
use redstore.Pages.Message.{page_new_with_message_lem}
use redstore.Data.Handlers.{delete_node, handle_data_delete, handle_data_head, handle_data_get}
use redstore.Data.Targets.{Outcome, message_outcome}
use redstore.Data.Store.{IsStore, cleared-exists}
use redstore.Data.Contents.{NamesGraph, with_world, delete-named, head-named, get-named}

module _ (S : Platform) (store : IsStore S) where
  open S use {World, Node, Statement}
  open store use {Holds, exists, cleared}

  abbrev not_found_text : Str
  not_found_text = codes "Graph not found."

  module _ (request request' : Request) (p : Program World) (node : Node) (format_str : Str)
      (names : NamesGraph S store request request' p node format_str) where
    abbrev missing : Outcome S
    missing = message_outcome S format_str 404 not_found_text request' p

    missing_lem : page_new_with_message S log_info 404 not_found_text request' p ≡ missing
    missing_lem =
        page_new_with_message_lem S log_info 404 not_found_text request' p format_str refl
          names.printable (unfold redstore_log in refl) names.speaks

    -- HEAD, GET and DELETE of a named graph that does not exist are answered with the same 404, and
    -- the program is left as it was.
    pub handle_data-missing_graph :
        exists p.world node ≡ false
        → (handle_data_head S request p ≡ missing)
          × (handle_data_get S request p ≡ missing)
          × (handle_data_delete S request p ≡ missing)
    unfolding log_all
    handle_data-missing_graph gone = (
      head-named S store request request' p node format_str names
          ∙ rw (store.contains_answer node p.world) (rw gone missing_lem),
      get-named S store request request' p node format_str names
          ∙ rw (store.contains_answer node p.world) (rw gone missing_lem),
      delete-named S store request request' p node format_str names
          ∙ rw (store.contains_answer node p.world) (rw gone missing_lem),
    )

    abbrev deleted_outcome : Outcome S
    deleted_outcome =
        message_outcome S format_str 200 (codes "Successfully deleted graph.") request'
          (with_world S store p (cleared node p.world))

    delete_node_lem : exists p.world node ≡ true → delete_node S node request' p ≡ deleted_outcome
    unfolding log_all
    delete_node_lem there = rw (store.contains_answer node p.world) (
        rw there (
          rw (store.clear_answer node p.world) (
            page_new_with_message_lem S log_info 200 (codes "Successfully deleted graph.") request'
              (with_world S store p (cleared node p.world)) format_str refl names.printable
              (unfold redstore_log in refl) names.speaks)))

    -- DELETE of a named graph that exists is answered with 200; afterwards the graph does not
    -- exist, and the other graphs hold what they held. The request accepts a format of the
    -- messages, the buffer of errors is not an empty text, and the store keeps its laws.
    pub handle_data_delete-removes :
        exists p.world node ≡ true
        → (w : World) × (handle_data_delete S request p
            ≡ message_outcome S format_str 200
                (codes "Successfully deleted graph.")
                request'
                (with_world S store p w))
          × ((m : Node) (s : Statement) → Holds w m s ↔ (Holds p.world m s × (m ≢ node)))
          × (exists w node ≡ false)
    handle_data_delete-removes there = (
      cleared node p.world,
      delete-named S store request request' p node format_str names ∙ delete_node_lem there,
      λ m s. store.cleared_holds node p.world m s,
      cleared-exists S store node p.world,
    )

  -- After a graph has been deleted, a request that names it is answered with 404 for HEAD, GET and
  -- DELETE, and changes nothing. Both requests accept a format of the messages, the buffer of
  -- errors is not an empty text, and the store keeps its laws.
  pub handle_data_delete-then_missing :
      (request request' : Request) (p : Program World) (node : Node) (format_str : Str)
      (later later' : Request) (later_format : Str)
      → NamesGraph S store request request' p node format_str
      → exists p.world node ≡ true
      → NamesGraph S store later later'
          (with_world S store p (cleared node p.world))
          node
          later_format
      → (handle_data_delete S request p
          ≡ message_outcome S format_str 200
              (codes "Successfully deleted graph.")
              request'
              (with_world S store p (cleared node p.world)))
        × (handle_data_head S later (with_world S store p (cleared node p.world))
            ≡ message_outcome S later_format 404 not_found_text later'
                (with_world S store p (cleared node p.world)))
        × (handle_data_get S later (with_world S store p (cleared node p.world))
            ≡ message_outcome S later_format 404 not_found_text later'
                (with_world S store p (cleared node p.world)))
        × (handle_data_delete S later (with_world S store p (cleared node p.world))
            ≡ message_outcome S later_format 404 not_found_text later'
                (with_world S store p (cleared node p.world)))
  handle_data_delete-then_missing request request' p node format_str later later' later_format names
        there later_names =
      let p' = with_world S store p (cleared node p.world) in
      let (head, get, delete) =
        handle_data-missing_graph later later' p' node later_format later_names
          (cleared-exists S store node p.world) in
      (
        delete-named S store request request' p node format_str names
            ∙ delete_node_lem request request' p node format_str names there,
        head,
        get,
        delete,
      )
