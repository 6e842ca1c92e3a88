-- ===== src/Data/Contents.antt =====
-- What the handlers of src/data.c for PUT, POST and DELETE do to the graphs.
use redstore.Base.{
  ℕ, ◌≡◌, refl, ◌∙◌, ◌↔◌, inl, inr, true, false, ◌||◌, none, some, List, ◌++◌, arith, ok, Str,
  codes,
}
use redstore.Request.{Request}
use redstore.Format.{negotiate_string}
use redstore.Platform.{Platform, log_info}
use redstore.Program.{Program, redstore_log, log_all}
use redstore.Program.Calls.{stream_of}
use redstore.Pages.{printed_str, message_format}
use redstore.Pages.Message.{IsPrintable, page_new_with_message_lem}
use redstore.Update.{load_stream_into_graph, clear_and_load_stream_into_graph, graph_name}
use redstore.Update.Parsing.{CleanBody, without_content, parse_data_from_request_body_lem}
use redstore.Data.{Target, target_of, get_graph_node}
use redstore.Data.Handlers.{
  both_given, none_given, put_node, post_node, head_node, get_node, delete_node, handle_data_put,
  handle_data_post, handle_data_delete, handle_data_head, handle_data_get,
}
use redstore.Data.Targets.{Outcome, message_outcome}
use redstore.Data.Store.{IsStore, Replaced, Extended}

module _ (S : Platform) (store : IsStore S) where
  open S use {World, Node, Statement, node_get_uri, uri_as_string}
  open store use {Holds, exists, added, cleared}

  -- The request names a graph: by its path or by the argument, and not by "default". It accepts a
  -- format of the messages, and the buffer of errors, if there is one, is not empty.
  pub record NamesGraph (request request' : Request) (p : Program World) (node : Node)
      (format_str : Str) : Type 0 where
    pub not_default : (target_of request).has_default ≡ false
    pub some_name : ((target_of request).has_graph || (target_of request).has_path) ≡ true
    pub node_found : get_graph_node S request p ≡ ok (some node, request', p)
    pub speaks : message_format S request' ≡ ok (some format_str)
    pub printable : IsPrintable p.error_buffer

  abbrev pub with_world : Program World → World → Program World
  with_world p w = record p { world = w }

  abbrev pub added_text : Node → Str
  added_text node =
      codes "Successfully added triples to: " ++ printed_str (graph_name S (some node))

  module _ (request : Request) (p : Program World) (node : Node) (xs : List Statement)
      (format_str : Str) (speaks : message_format S request ≡ ok (some format_str))
      (no_errors : p.error_buffer ≡ none) where
    load_stream_into_graph_lem :
        load_stream_into_graph S (stream_of xs) (some node) request p
        ≡ message_outcome S format_str 200
            (added_text node)
            request
            (record p { world = added node xs p.world })
    unfolding load_stream_into_graph log_all
    load_stream_into_graph_lem = rw (store.add_answer node xs p.world) (
        rw no_errors (
          page_new_with_message_lem S log_info 200 (added_text node) request
            (record p { world = added node xs p.world; error_buffer = none }) format_str refl
            (λ e. cc e) (unfold redstore_log in refl) speaks))

    clear_and_load_lem :
        clear_and_load_stream_into_graph S (stream_of xs) (some node) request p
        ≡ load_stream_into_graph S
            (stream_of xs)
            (some node)
            request
            (with_world p (cleared node p.world))
    unfolding clear_and_load_stream_into_graph log_all
    clear_and_load_lem = rw (store.clear_answer node p.world) refl

  -- The tests of the target pass for a request that names a graph.
  named_target :
      (target : Target)
      → target.has_default ≡ false
      → (target.has_graph || target.has_path) ≡ true
      → (both_given target ≡ false) × (none_given target ≡ false)
  named_target target h k = ground arith

  -- What a graph holds after it has been cleared and filled.
  pub Replaced-iff :
      (node : Node) (xs : List Statement) (w : World) (m : Node) (s : Statement)
      → Holds (added node xs (cleared node w)) m s ↔ Replaced S store node xs w m s
  Replaced-iff node xs w m s =
      let (to, from) = store.added_holds node xs (cleared node w) m s in
      let (to_kept, from_kept) = store.cleared_holds node w m s in
      (
        λ h. elim (to h) [ inl old ↦ inl (to_kept old) | inr new ↦ inr new ],
        λ h. elim h [ inl old ↦ from (inl (from_kept old)) | inr new ↦ from (inr new) ],
      )

  module _ (request request' : Request) (p : Program World) (node : Node) (format_str : Str)
      (names : NamesGraph request request' p node format_str) where
    put-named : handle_data_put S request p ≡ put_node S node request' p
    unfolding handle_data_put
    put-named =
        let (one, named) = named_target (target_of request) names.not_default names.some_name in
        rw one (rw named (rw names.not_default (rw names.node_found refl)))

    post-named : handle_data_post S request p ≡ post_node S node request' p
    unfolding handle_data_post
    post-named =
        let (one, _) = named_target (target_of request) names.not_default names.some_name in
        rw one (rw names.not_default (rw names.some_name (rw names.node_found refl)))

    pub delete-named : handle_data_delete S request p ≡ delete_node S node request' p
    unfolding handle_data_delete
    delete-named =
        let (one, named) = named_target (target_of request) names.not_default names.some_name in
        rw one (rw named (rw names.not_default (rw names.node_found refl)))

    pub head-named : handle_data_head S request p ≡ head_node S node request' p
    unfolding handle_data_head
    head-named =
        let (one, named) = named_target (target_of request) names.not_default names.some_name in
        rw one (rw named (rw names.not_default (rw names.node_found refl)))

    pub get-named : handle_data_get S request p ≡ get_node S node request' p
    unfolding handle_data_get
    get-named =
        let (one, named) = named_target (target_of request) names.not_default names.some_name in
        rw one (rw named (rw names.not_default (rw names.node_found refl)))

    module _ (size : ℕ) (xs : List Statement) (body : CleanBody S request' p.world node size xs)
        (no_errors : p.error_buffer ≡ none) where
      abbrev rest : Request
      rest = without_content S size request'

      rest-speaks : message_format S rest ≡ ok (some format_str)
      unfolding negotiate_string
      rest-speaks = names.speaks

      -- The answer of PUT and POST, with the state of the storage.
      abbrev pub loaded : World → Outcome S
      loaded w = message_outcome S format_str 200 (added_text node) rest (with_world p w)

      pub handle_data_put_lem :
          handle_data_put S request p ≡ loaded (added node xs (cleared node p.world))
      handle_data_put_lem =
          put-named
          ∙ (parse_data_from_request_body_lem S request' p node size xs
                (clear_and_load_stream_into_graph S) body
              ∙ (clear_and_load_lem rest p node xs format_str rest-speaks no_errors
                  ∙ load_stream_into_graph_lem rest (with_world p (cleared node p.world)) node xs
                      format_str rest-speaks no_errors))

      -- PUT to a named graph of a content that can be parsed is answered with 200, and replaces what
      -- the graph holds by the statements of the content; no other graph is changed.
      handle_data_put-replaces :
          (w : World) × (handle_data_put S request p ≡ loaded w)
          × ((m : Node) (s : Statement) → Holds w m s ↔ Replaced S store node xs p.world m s)
      handle_data_put-replaces = (
        added node xs (cleared node p.world),
        handle_data_put_lem,
        λ m s. Replaced-iff node xs p.world m s,
      )

      -- POST to a named graph of a content that is parsed without a message, with no error noted
      -- before, is answered with 200, and adds the statements of the content to the graph; no other
      -- graph is changed. The request accepts a format of the messages, and the store keeps its
      -- laws.
      pub handle_data_post-extends :
          (w : World) × (handle_data_post S request p ≡ loaded w)
          × ((m : Node) (s : Statement) → Holds w m s ↔ Extended S store node xs p.world m s)
      handle_data_post-extends = (
        added node xs p.world,
        post-named
            ∙ (parse_data_from_request_body_lem S request' p node size xs (load_stream_into_graph S)
                  body
                ∙ load_stream_into_graph_lem rest p node xs format_str rest-speaks no_errors),
        λ m s. store.added_holds node xs p.world m s,
      )
