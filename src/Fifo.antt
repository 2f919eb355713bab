-- ===== src/Fifo.antt =====
-- What the `MovePublisher` and `MoveSubscriber` traits of ogre_std/ogre_queues promise of a bounded
-- queue, over the list of its elements, oldest first.
use reactive_mutiny.Common.{
  ℕ, ◌+◌, Option, none, some, List, [], ◌∷◌, ◌++◌, length, ltb, if◌then◌else◌,
}

-- `publish_movable`: the length after the element was added, or the element back if there is no room.
unfoldable pub publish {ℓ} : {A : Type ℓ} → ℕ → A → List A → (Option ℕ × Option A) × List A
publish cap x q =
    if ltb (length q) cap then ((some (length q + 1), none), q ++ (x ∷ [])) else ((none, some x), q)

-- `consume_movable`: the oldest element, unless there is none.
unfoldable pub consume {ℓ} : {A : Type ℓ} → List A → Option A × List A
consume [] = (none, [])
consume (x ∷ q) = (some x, q)
