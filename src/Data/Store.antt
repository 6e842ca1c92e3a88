-- ===== src/Data/Store.antt =====
-- What src/data.c relies on of the storage of librdf: named graphs that hold statements.
use redstore.Base.{◌≡◌, refl, ◌≢◌, ◌↔◌, ◌⊎◌, inl, inr, Bool, true, false, some, List, Bool-cases}
use mathlib.Core.List.{Memᴰ}
use redstore.Platform.{Platform}
use redstore.Program.Calls.{quiet, stream_of}

-- The documented behaviour of the calls on a graph, when nothing fails and nothing is logged. `Holds`
-- says which statements a graph holds.
pub record IsStore (S : Platform) : Type 1 where
  pub Holds : S.World → S.Node → S.Statement → Type 0
  -- a graph exists exactly if it holds a statement
  pub exists : S.World → S.Node → Bool
  pub exists_holds :
      (w : S.World) (n : S.Node) → exists w n ≡ true → (s : S.Statement) × Holds w n s
  pub holds_exists : (w : S.World) (n : S.Node) (s : S.Statement) → Holds w n s → exists w n ≡ true
  pub contains_answer : (n : S.Node) (w : S.World) → S.contains_context n w ≡ quiet (exists w n) w
  -- the state after statements have been added to a graph, and after all have been removed from it
  pub added : S.Node → List S.Statement → S.World → S.World
  pub add_answer :
      (n : S.Node) (xs : List S.Statement) (w : S.World)
      → S.context_add_statements (some n) (stream_of xs) w ≡ quiet false (added n xs w)
  pub added_holds :
      (n : S.Node) (xs : List S.Statement) (w : S.World) (m : S.Node) (s : S.Statement)
      → Holds (added n xs w) m s ↔ (Holds w m s ⊎ ((m ≡ n) × Memᴰ s xs))
  pub cleared : S.Node → S.World → S.World
  pub clear_answer :
      (n : S.Node) (w : S.World) → S.context_remove_statements n w ≡ quiet false (cleared n w)
  pub cleared_holds :
      (n : S.Node) (w : S.World) (m : S.Node) (s : S.Statement)
      → Holds (cleared n w) m s ↔ (Holds w m s × (m ≢ n))

module _ (S : Platform) (store : IsStore S) where
  open S use {World, Node, Statement}
  open store use {Holds, exists, exists_holds, cleared, cleared_holds}

  -- The abstract view of PUT and of POST: what the graphs hold afterwards.
  abbrev pub Replaced : Node → List Statement → World → Node → Statement → Type 0
  Replaced n xs w m s = (Holds w m s × (m ≢ n)) ⊎ ((m ≡ n) × Memᴰ s xs)

  abbrev pub Extended : Node → List Statement → World → Node → Statement → Type 0
  Extended n xs w m s = Holds w m s ⊎ ((m ≡ n) × Memᴰ s xs)

  -- A graph that has been cleared does not exist.
  pub cleared-exists : (n : Node) (w : World) → exists (cleared n w) n ≡ false
  cleared-exists n w = elim (Bool-cases (exists (cleared n w) n)) [
    | inl there ↦
        let (s, h) = exists_holds (cleared n w) n there in
        absurd (((cleared_holds n w n s).0 h).1 refl)
    | inr gone ↦ gone
  ]
