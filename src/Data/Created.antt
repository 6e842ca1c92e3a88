-- ===== src/Data/Created.antt =====
-- A POST to /data that makes a new graph (src/data.c and src/update.c).
use redstore.Base.{
  ℕ, ◌<◌, ◌≡◌, refl, ◌∙◌, ◌↔◌, false, none, some, List, [], ◌∷◌, ◌++◌, ok, Str, codes,
}
use redstore.Headers.{headers_add}
use redstore.Request.{Request}
use redstore.Response.{Response, add_header}
use redstore.Format.{is_html_format, negotiate_string}
use redstore.Platform.{Platform, log_info}
use redstore.Program.{Program, lift, redstore_log, log_all}
use redstore.Program.Calls.{stream_of}
use redstore.Program.Steps.{>>=-step}
use redstore.Pages.{page_new_with_message, message_format}
use redstore.Pages.Message.{message_response, page_new_with_message_lem}
use redstore.Update.{add_location, graph_str, load_stream_into_new_graph}
use redstore.Update.Parsing.{CleanBody, without_content, parse_data_from_request_body_lem}
use redstore.Data.{target_of}
use redstore.Data.Handlers.{post_to, find_new_graph, post_to_new_graph, handle_data_post}
use redstore.Data.Targets.{Outcome}
use redstore.Data.Store.{IsStore, Extended}
use redstore.Data.NewGraph.{MakesNodes, with_base, nth_node, find_new_graph-Finds}

module _ (S : Platform) (store : IsStore S) where
  open S use {World, Node, Statement}
  open store use {Holds, exists, added}

  -- The name of a node: the text of its URI.
  abbrev pub IsName : Node → Str → Type 0
  IsName node graph =
      (uri : S.Uri) × (S.node_get_uri node ≡ some uri) × (S.uri_as_string uri ≡ graph)

  abbrev created_text : Str → Str
  created_text graph = codes "Successfully added triples to new graph: " ++ graph

  -- The answer with the name of the new graph in its Location header.
  abbrev located : Response → Str → Response
  located response graph = record response {
    headers = response.headers ++ record { key = codes "Location"; value = some graph } ∷ [];
  }

  abbrev pub created : Str → Str → Request → Program World → Outcome S
  created format_str graph request p = ok (
    some (
        located
          (message_response S (is_html_format format_str) 201 (created_text graph) p.error_buffer)
          graph),
    request,
    p,
  )

  load_stream_into_new_graph_lem :
      (request : Request) (p : Program World) (node : Node) (xs : List Statement) (format_str : Str)
      (uri : S.Uri) (c : ℕ) (graph : Str)
      → message_format S request ≡ ok (some format_str)
      → p.error_buffer ≡ none
      → S.node_get_uri node ≡ some uri
      → S.uri_as_string uri ≡ c ∷ graph
      → load_stream_into_new_graph S (stream_of xs) node request p
        ≡ created format_str (c ∷ graph) request (record p { world = added node xs p.world })
  unfolding load_stream_into_new_graph log_all add_header headers_add
  load_stream_into_new_graph_lem request p node xs format_str uri c graph speaks no_errors has_uri
        text =
      rw (has_uri, graph_str)
        (rw text (
          rw (store.add_answer node xs p.world) (
            rw no_errors (
              >>=-step (page_new_with_message S log_info 201 (created_text (c ∷ graph)))
                (λ response. lift (add_location S (c ∷ graph) response))
                (page_new_with_message_lem S log_info 201 (created_text (c ∷ graph)) request
                  (record p { world = added node xs p.world; error_buffer = none }) format_str refl
                  (λ e. cc e) (unfold redstore_log in refl) speaks)
              ∙ refl))))

  -- A request that names no graph, whose URL is known and whose content can be parsed.
  pub record AsksNew (request : Request) (p : Program World) (url format_str : Str)
      (makes : MakesNodes S store url) (size : ℕ) (xs : List Statement) : Type 0 where
    pub no_graph : (target_of request).has_graph ≡ false
    pub no_default : (target_of request).has_default ≡ false
    pub no_path : (target_of request).has_path ≡ false
    pub url_known : request.url ≡ some url
    pub speaks : message_format S request ≡ ok (some format_str)
    pub no_errors : p.error_buffer ≡ none
    pub body : (node : Node) → CleanBody S request p.world node size xs

  module _ (request : Request) (p : Program World) (url format_str : Str)
      (makes : MakesNodes S store url) (size : ℕ) (xs : List Statement)
      (asks : AsksNew request p url format_str makes size xs) where
    post-new : handle_data_post S request p ≡ post_to_new_graph S request p
    unfolding handle_data_post
    post-new = rw asks.no_graph (rw asks.no_default (rw asks.no_path refl))

    -- The request when its content has been read as the content of a graph.
    abbrev rest : Request
    rest = without_content S size request

    rest-speaks : message_format S rest ≡ ok (some format_str)
    unfolding negotiate_string
    rest-speaks = asks.speaks

    -- POST to /data itself of a content that is parsed without a message on every new graph: if one
    -- of the next ten identifiers names no graph, the statements become a graph that did not exist,
    -- and no other graph is changed. The answer is 201, with the name of the graph as its Location.
    -- The URL of the request is known, the libraries make a node of each identifier, names are not
    -- empty, no error is noted before, the request accepts a format of the messages, and the store
    -- keeps its laws.
    pub handle_data_post-creates :
        (m : ℕ)
        → m < 10
        → exists p.world (nth_node S store url makes p m) ≡ false
        → ((node : Node)
            → (uri : S.Uri) × (c : ℕ) × (graph : Str) × (S.node_get_uri node ≡ some uri)
              × (S.uri_as_string uri ≡ c ∷ graph))
        → (node : Node) × (graph : Str) × (base_id : ℕ) × (w : World) × (exists p.world node
            ≡ false)
          × IsName node graph
          × (handle_data_post S request p
              ≡ created format_str graph rest (record p { base_id = base_id; world = w }))
          × ((n : Node) (s : Statement) → Holds w n s ↔ Extended S store node xs p.world n s)
    unfolding post_to_new_graph
    handle_data_post-creates m less fresh named =
        let (node, base_id, e, free) =
          find_new_graph-Finds S store url makes 10 request p m asks.url_known less fresh in
        let (uri, c, graph, has_uri, text) = named node in
        let q = with_base S store p base_id in
        (
          node,
          c ∷ graph,
          base_id,
          added node xs p.world,
          free,
          (uri, has_uri, text),
          post-new
              ∙ (>>=-step (find_new_graph S 10) (post_to S) e
                  ∙ (parse_data_from_request_body_lem S request q node size xs
                        (λ stream graph'. load_stream_into_new_graph S stream node) (asks.body node)
                      ∙ load_stream_into_new_graph_lem rest q node xs format_str uri c graph
                          rest-speaks asks.no_errors has_uri text)),
          λ n s. store.added_holds node xs p.world n s,
        )
