-- ===== src/Queues/Counted.antt =====
-- NonBlockingQueue of src/ogre_std/ogre_queues/full_sync/non_blocking_queue.rs and of
-- src/ogre_std/ogre_queues/atomic/non_blocking_queue.rs: a zero-copy queue of `BUFFER_SIZE` slots with
-- four counters. The traces and the diagnostics, which change nothing, are left out.
pub mod Refine
use reactive_mutiny.Common.{
  ℕ, ◌+◌, ◌%◌, ◌^◌, Bool, true, false, Option, none, some, List, if◌then◌else◌, Run, ◌>>=◌,
  IsRingSize, ◌==◌,
}
use reactive_mutiny.Container.{MoveContainer}
use reactive_mutiny.FullSync.Move.Container.{full_sync_move}
use reactive_mutiny.Atomic.Move.Container.{atomic_move}
use reactive_mutiny.ZeroCopy
use reactive_mutiny.ZeroCopy.{ZeroCopy}
use reactive_mutiny.Queues.{from, metrics}

pub record NonBlockingQueue (D : Type 0) (c : MoveContainer ℕ) : Type 0 where
  pub enqueue_count : ℕ
  pub queue_full_count : ℕ
  pub base_queue : ZeroCopy D c c
  pub dequeue_count : ℕ
  pub queue_empty_count : ℕ

-- `c` holds the ids of the allocator and those of the queue; `needs_drop` says whether SlotType has a
-- destructor to run.
module _ {D : Type 0} (c : MoveContainer ℕ) (BUFFER_SIZE : ℕ) (junk : D) (needs_drop : Bool)
    (INSTRUMENTS : ℕ) where
  abbrev pub new : Option (NonBlockingQueue D c)
  new = elim (ZeroCopy.new c c BUFFER_SIZE junk needs_drop) [
    | none ↦ none
    | some base ↦ some (record {
      enqueue_count = 0;
      queue_full_count = 0;
      base_queue = base;
      dequeue_count = 0;
      queue_empty_count = 0;
    })
  ]

  -- `fetch_add(1)` on a counter of 64 bits, if metrics are kept
  abbrev pub counted : ℕ → ℕ
  counted n = if metrics (from INSTRUMENTS) then (n + 1) % 2 ^ 64 else n

  unfoldable pub enqueue : D → Run (NonBlockingQueue D c) (Option D)
  enqueue element s =
      elim (ZeroCopy.publish_movable c c BUFFER_SIZE junk needs_drop element s.base_queue) [
        | none ↦ none
        | some (answer, base) ↦ elim answer.0 [
          | some len_after ↦
              some (none, record s { base_queue = base; enqueue_count = counted s.enqueue_count })
          | none ↦ some (
            answer.1,
            record s { base_queue = base; queue_full_count = counted s.queue_full_count },
          )
        ]
      ]

  -- The getter copies the element out of its slot.
  unfoldable pub dequeue : Run (NonBlockingQueue D c) (Option D)
  dequeue s = elim (ZeroCopy.consume c c BUFFER_SIZE junk needs_drop (λ slot. slot) s.base_queue) [
    | none ↦ none
    | some (taken, base) ↦ elim taken [
      | some (element, len_after) ↦
          some
            (some element, record s { base_queue = base; dequeue_count = counted s.dequeue_count })
      | none ↦
          some
            (none, record s { base_queue = base; queue_empty_count = counted s.queue_empty_count })
    ]
  ]

  abbrev pub len : NonBlockingQueue D c → ℕ
  len s = ZeroCopy.available_elements_count c c BUFFER_SIZE junk needs_drop s.base_queue

  abbrev pub is_empty : NonBlockingQueue D c → Bool
  is_empty s = len s == 0
