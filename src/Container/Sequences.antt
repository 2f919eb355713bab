-- ===== src/Container/Sequences.antt =====
-- Sequences of calls on a container, and the same calls on the list of its elements.
use reactive_mutiny.Common.{ℕ, ◌≡◌, refl, ◌∙◌, Option, some, List, [], ◌∷◌, ◌>>=◌}
use reactive_mutiny.Fifo
use reactive_mutiny.Container.{MoveContainer}

pub data Op {ℓ} (A : Type ℓ) : Type ℓ where
  publish : A → Op A
  consume : Op A

pub data Reply {ℓ} (A : Type ℓ) : Type ℓ where
  published : Option ℕ × Option A → Reply A
  consumed : Option A → Reply A

module _ {ℓ} {A : Type ℓ} where
  -- The calls on a bounded queue of elements.
  unfoldable pub fifo_run : ℕ → List (Op A) → List A → List (Reply A) × List A
  fifo_run cap [] q = ([], q)
  fifo_run cap (publish x ∷ ops) q =
      let (out, q') = Fifo.publish cap x q in
      let (outs, q'') = fifo_run cap ops q' in (published out ∷ outs, q'')
  fifo_run cap (consume ∷ ops) q =
      let (out, q') = Fifo.consume q in
      let (outs, q'') = fifo_run cap ops q' in (consumed out ∷ outs, q'')

  module _ (c : MoveContainer A) where
    open c use {
      State, publish_movable, consume_movable, max_size, contents, IsReady, publish_refines,
      consume_refines,
    }

    unfoldable pub run : List (Op A) → State → Option (List (Reply A) × State)
    run [] = λ s. some ([], s)
    run (publish x ∷ ops) = do
      out ← publish_movable x
      outs ← run ops
      λ s. some (published out ∷ outs, s)
    run (consume ∷ ops) = do
      out ← consume_movable
      outs ← run ops
      λ s. some (consumed out ∷ outs, s)

    -- Every sequence of calls on a ready container returns, with the replies of the bounded queue of
    -- its elements, and leaves it ready with the elements that are left there.
    pub run_refines :
        (ops : List (Op A)) (s : State)
        → IsReady s
        → (s' : State) × (run ops s ≡ some ((fifo_run max_size ops (contents s)).0, s'))
          × (contents s' ≡ (fifo_run max_size ops (contents s)).1)
          × IsReady s'
    unfolding run fifo_run
    run_refines [] s v = (s, refl, refl, v)
    run_refines (publish x ∷ ops) s v =
        let (s1, e1, c1, v1) = publish_refines x s v in
        let (s2, e2, c2, v2) = run_refines ops s1 v1 in
        (s2, rw (e1, ◌>>=◌) (rw (e2, ◌>>=◌) (rw c1)), c2 ∙ (rw c1), v2)
    run_refines (consume ∷ ops) s v =
        let (s1, e1, c1, v1) = consume_refines s v in
        let (s2, e2, c2, v2) = run_refines ops s1 v1 in
        (s2, rw (e1, ◌>>=◌) (rw (e2, ◌>>=◌) (rw c1)), c2 ∙ (rw c1), v2)
