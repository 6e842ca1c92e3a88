-- ===== src/Data/NewGraph.antt =====
-- The search of src/data.c for the name of a new graph.
use redstore.Base.{
  ℕ, zero, suc, ◌<◌, ◌≡◌, refl, sym, ap, ◌∙◌, inl, inr, true, false, some, ◌++◌, arith,
  if◌then◌else◌, Bool-cases, ok, Str, codes,
}
use redstore.Request.{Request}
use redstore.Request.Setters.{get_url}
use redstore.GenId.{genid, nth_id, nth_id-zero, nth_id-suc}
use redstore.Platform.{Platform}
use redstore.Program.{Program, Action, log_all}
use redstore.Program.Monad.{pure}
use redstore.Program.Calls.{quiet}
use redstore.Program.Steps.{>>=-step}
use redstore.Data.{request_url, new_graph_node}
use redstore.Data.Handlers.{Attempts, gave_up, found, attempt, find_new_graph}
use redstore.Data.Store.{IsStore}

module _ (S : Platform) (store : IsStore S) where
  open S use {World, Node, Uri}
  open store use {exists}

  -- The libraries make a node of each identifier, on the URL of the request.
  pub record MakesNodes (url : Str) : Type 0 where
    pub base_uri : Uri
    pub uri_of : Str → Uri
    pub node_of : Str → Node
    pub base_made : (w : World) → S.new_uri url w ≡ quiet (some base_uri) w
    pub uri_made :
        (id : Str) (w : World)
        → S.new_uri_relative_to_base base_uri (codes "/data/" ++ id) w ≡ quiet (some (uri_of id)) w
    pub node_made :
        (id : Str) (w : World) → S.new_node_from_uri (uri_of id) w ≡ quiet (some (node_of id)) w

  -- The program when the next identifier has been taken.
  abbrev pub with_base : Program World → ℕ → Program World
  with_base p base_id = record p { base_id = base_id }

  module _ (url : Str) (makes : MakesNodes url) where
    open makes use {node_of}

    new_graph_node_lem :
        (request : Request) (p : Program World)
        → new_graph_node S url request p
          ≡ ok (
            some (node_of (genid S.random p.base_id).0),
            request,
            with_base p (genid S.random p.base_id).1,
          )
    unfolding new_graph_node log_all
    new_graph_node_lem request p =
        rw (makes.base_made p.world)
          (rw (makes.uri_made _ p.world) (rw (makes.node_made _ p.world) refl))

    request_url-kept :
        (request : Request) (p : Program World)
        → request.url ≡ some url
        → request_url request p ≡ ok (url, request, p)
    unfolding get_url
    request_url-kept request p h = rw h refl

    -- The next identifier, its node, and the program behind it.
    abbrev next_node : Program World → Node
    next_node p = node_of (genid S.random p.base_id).0

    abbrev pub taken : Program World → Program World
    taken p = with_base p (genid S.random p.base_id).1

    attempt_lem :
        (again : Action World (Attempts Node)) (node : Node) (request : Request) (p : Program World)
        → attempt S again (some node) request p
          ≡ (if exists p.world node then again else pure (found node)) request p
    unfolding log_all
    attempt_lem again node request p = rw (store.contains_answer node p.world) refl

    find_new_graph-step :
        (attempts : ℕ) (request : Request) (p : Program World)
        → request.url ≡ some url
        → find_new_graph S (suc attempts) request p
          ≡ (if exists p.world (next_node p)
                then find_new_graph S attempts
                else pure (found (next_node p)))
              request
              (taken p)
    unfolding find_new_graph
    find_new_graph-step attempts request p h =
        >>=-step request_url _ (request_url-kept request p h)
        ∙ (>>=-step (new_graph_node S url) (attempt S (find_new_graph S attempts))
              (new_graph_node_lem request p)
            ∙ attempt_lem (find_new_graph S attempts) (next_node p) request (taken p))

    -- The node of the identifier that comes after some others.
    abbrev pub nth_node : Program World → ℕ → Node
    nth_node p n = node_of (nth_id S.random p.base_id n)

    nth_node-zero : (p : Program World) → nth_node p 0 ≡ next_node p
    nth_node-zero p = ap node_of (nth_id-zero S.random p.base_id)

    nth_node-suc : (p : Program World) (n : ℕ) → nth_node p (suc n) ≡ nth_node (taken p) n
    nth_node-suc p n = ap node_of (nth_id-suc S.random p.base_id n)

    -- How a search ends well: with a node that does not exist, and only the identifiers have changed.
    abbrev pub Finds : ℕ → Request → Program World → Type 0
    Finds attempts request p =
        (node : Node) × (base_id : ℕ) × (find_new_graph S attempts request p
          ≡ ok (found node, request, with_base p base_id))
        × (exists p.world node ≡ false)

    -- If one of the identifiers that can be tried names no graph yet, the search finds a node that does
    -- not exist, and changes nothing but the number that identifiers are made of.
    pub find_new_graph-Finds :
        (attempts : ℕ) (request : Request) (p : Program World) (m : ℕ)
        → request.url ≡ some url
        → m < attempts
        → exists p.world (nth_node p m) ≡ false
        → Finds attempts request p
    find_new_graph-Finds zero request p m h less fresh = absurd (omega arith)
    find_new_graph-Finds (suc attempts) request p zero h less fresh =
        let free = ap (exists p.world) (sym (nth_node-zero p)) ∙ fresh in
        let step = find_new_graph-step attempts request p h in
        (next_node p, (genid S.random p.base_id).1, rw free at step, free)
    find_new_graph-Finds (suc attempts) request p (suc m) h less fresh =
        let step = find_new_graph-step attempts request p h in
        elim (Bool-cases (exists p.world (next_node p))) [
          | inl used ↦
              let (node, base_id, e, free) =
                find_new_graph-Finds attempts request (taken p) m h (omega arith)
                  (ap (exists p.world) (sym (nth_node-suc p m)) ∙ fresh) in
              (node, base_id, rw used at step ∙ e, free)
          | inr free ↦ (next_node p, (genid S.random p.base_id).1, rw free at step, free)
        ]

    -- If all identifiers that can be tried name graphs, the search gives up.
    find_new_graph-gives_up :
        (attempts : ℕ) (request : Request) (p : Program World)
        → request.url ≡ some url
        → ((m : ℕ) → m < attempts → exists p.world (nth_node p m) ≡ true)
        → (base_id : ℕ) × (find_new_graph S attempts request p
            ≡ ok (gave_up, request, with_base p base_id))
    unfolding find_new_graph
    find_new_graph-gives_up zero request p h used = (p.base_id, refl)
    find_new_graph-gives_up (suc attempts) request p h used =
        let step = find_new_graph-step attempts request p h in
        let first = ap (exists p.world) (sym (nth_node-zero p)) ∙ used 0 (omega arith) in
        let (base_id, e) =
          find_new_graph-gives_up attempts request (taken p) h
            (λ m less. ap (exists p.world) (sym (nth_node-suc p m)) ∙ used (suc m) (omega arith)) in
        (base_id, rw first at step ∙ e)
