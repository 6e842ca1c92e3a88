-- ===== src/Data/Repeat.antt =====
-- A PUT that is repeated (src/data.c).
use redstore.Base.{ℕ, ◌≡◌, ◌↔◌, inl, inr, none, List, Str}
use redstore.Request.{Request}
use redstore.Platform.{Platform}
use redstore.Program.{Program}
use redstore.Update.Parsing.{CleanBody}
use redstore.Data.Handlers.{handle_data_put}
use redstore.Data.Store.{IsStore, Replaced}
use redstore.Data.Contents.{NamesGraph, with_world, loaded, handle_data_put_lem, Replaced-iff}

module _ (S : Platform) (store : IsStore S) where
  open S use {World, Node, Statement}
  open store use {Holds, added, cleared}

  -- A graph that has been replaced holds the same after it is replaced again by the same statements.
  Replaced-again :
      (n : Node) (xs : List Statement) (w v : World)
      → ((m : Node) (s : Statement) → Holds v m s ↔ Replaced S store n xs w m s)
      → (m : Node) (s : Statement) → Replaced S store n xs v m s ↔ Holds v m s
  Replaced-again n xs w v h m s =
      let (to, from) = h m s in
      (
        λ r. elim r [ inl (old, other) ↦ old | inr new ↦ from (inr new) ],
        λ held. elim (to held) [ inl (old, other) ↦ inl (held, other) | inr new ↦ inr new ],
      )

  -- The state that the first request leaves.
  abbrev pub replaced_world : Program World → Node → List Statement → World
  replaced_world p node xs = added node xs (cleared node p.world)

  module _ (first first' second second' : Request) (p : Program World) (node : Node)
      (first_format second_format : Str) (size second_size : ℕ) (xs : List Statement)
      (names : NamesGraph S store first first' p node first_format)
      (body : CleanBody S first' p.world node size xs) (no_errors : p.error_buffer ≡ none) where
    -- PUT is idempotent: of two requests that name the same graph, the second one in the state that
    -- the first leaves, and whose contents are parsed without a message to the same statements,
    -- both are answered with 200, and the second leaves all graphs as they are. No error is noted
    -- before, the requests accept a format of the messages, and the store keeps its laws.
    pub handle_data_put-idempotent :
        (second_names : NamesGraph S store second second'
          (with_world S store p (replaced_world p node xs))
          node
          second_format)
        → (second_body : CleanBody S second' (replaced_world p node xs) node second_size xs)
        → (handle_data_put S first p
            ≡ loaded S store first first' p node first_format names size xs body no_errors
                (replaced_world p node xs))
          × ((v : World) × (handle_data_put S second
                  (with_world S store p (replaced_world p node xs))
                ≡ loaded S store second second'
                    (with_world S store p (replaced_world p node xs))
                    node
                    second_format
                    second_names
                    second_size
                    xs
                    second_body
                    no_errors
                    v)
              × ((m : Node) (s : Statement) → Holds v m s ↔ Holds (replaced_world p node xs) m s))
    handle_data_put-idempotent second_names second_body =
        let w = (replaced_world p node xs) in
        let p' = with_world S store p w in
        (
          handle_data_put_lem S store first first' p node first_format names size xs body no_errors,
          (
            added node xs (cleared node w),
            handle_data_put_lem S store second second' p' node second_format second_names
                second_size xs second_body no_errors,
            λ m s.
                let (to, from) = Replaced-iff S store node xs w m s in
                let (to_old, from_old) =
                  Replaced-again node xs p.world w (λ n t. Replaced-iff S store node xs p.world n t)
                    m s in
                (λ h. to_old (to h), λ h. from (from_old h)),
          ),
        )
