-- ===== src/Container.antt =====
-- The trait MoveContainer of src/ogre_std/ogre_queues/meta_container.rs, with MovePublisher and
-- MoveSubscriber: what the parts built over a queue of movable elements use of it, and rely on.
pub mod Sequences
use reactive_mutiny.Common.{ℕ, ◌≡◌, Option, some, List, [], length, Run}
use reactive_mutiny.Fifo

pub record MoveContainer {ℓ} (A : Type ℓ) : Type (ℓ + 1) where
  pub State : Type ℓ
  pub new : State
  pub publish_movable : A → Run State (Option ℕ × Option A)
  pub consume_movable : Run State (Option A)
  pub available_elements_count : State → ℕ
  pub max_size : ℕ
  -- The elements, oldest first, and the invariant between operations.
  pub contents : State → List A
  pub IsReady : State → Type 0
  pub new_ready : IsReady new
  pub new_empty : contents new ≡ []
  pub publish_refines :
      (x : A) (s : State)
      → IsReady s
      → (s' : State) × (publish_movable x s ≡ some ((Fifo.publish max_size x (contents s)).0, s'))
        × (contents s' ≡ (Fifo.publish max_size x (contents s)).1)
        × IsReady s'
  pub consume_refines :
      (s : State)
      → IsReady s
      → (s' : State) × (consume_movable s ≡ some ((Fifo.consume (contents s)).0, s'))
        × (contents s' ≡ (Fifo.consume (contents s)).1)
        × IsReady s'
  pub counts : (s : State) → IsReady s → available_elements_count s ≡ length (contents s)
