-- ===== src/Queues/Counted/Refine.antt =====
-- The non-blocking queues against the bounded queue of their elements, with what the counters count.
use reactive_mutiny.Common.{
  ◌+◌, ◌%◌, ◌^◌, ℕ, ◌≡◌, Bool, Option, none, some, List, [], ◌∷◌, ◌++◌, length, ltb, if◌then◌else◌,
}
use reactive_mutiny.Fifo
use reactive_mutiny.Container.{MoveContainer}
use reactive_mutiny.ZeroCopy
use reactive_mutiny.ZeroCopy.Stock.{contents}
use reactive_mutiny.Queues.{from, metrics}
use reactive_mutiny.Queues.Counted.{NonBlockingQueue}

module _ {D : Type 0} (c : MoveContainer ℕ) (BUFFER_SIZE : ℕ) (junk : D) (needs_drop : Bool)
    (INSTRUMENTS : ℕ) where
  -- The elements, oldest first.
  abbrev pub elements : NonBlockingQueue D c → List D
  elements s = contents c c BUFFER_SIZE junk s.base_queue

  abbrev pub has_room : NonBlockingQueue D c → Bool
  has_room s = ltb (length (elements s)) BUFFER_SIZE

  -- One more in a counter of 64 bits, where the instruments ask for metrics.
  abbrev bump : ℕ → ℕ
  bump n = if metrics (from INSTRUMENTS) then (n + 1) % 2 ^ 64 else n

  -- What a reception does to an empty queue, or to one with elements. Where the type has a destructor, it
  -- is run on the very element that the caller gets.
  pub data Dequeued (s s' : NonBlockingQueue D c) : Option D → Type 0 where
    taken :
        (element : D)
        → elements s ≡ element ∷ elements s'
        → s'.dequeue_count ≡ bump s.dequeue_count
        → s'.queue_empty_count ≡ s.queue_empty_count
        → s'.base_queue.allocator.drops ≡ (
            if needs_drop
            then s.base_queue.allocator.drops ++ (element ∷ [])
            else s.base_queue.allocator.drops)
        → Dequeued s s' (some element)
    nothing :
        elements s ≡ []
        → elements s' ≡ []
        → s'.dequeue_count ≡ s.dequeue_count
        → s'.queue_empty_count ≡ bump s.queue_empty_count
        → s'.base_queue.allocator.drops ≡ s.base_queue.allocator.drops
        → Dequeued s s' none
