-- ===== src/ZeroCopy.antt =====
-- FullSyncZeroCopy of src/ogre_std/ogre_queues/full_sync/full_sync_zero_copy.rs: a queue of the ids of an
-- allocator's slots. AtomicZeroCopy of src/ogre_std/ogre_queues/atomic/atomic_zero_copy.rs has the same
-- text over AtomicMove: both are the definitions below, at the container of each.
pub mod Stock
pub mod Queue
pub mod Leaks
pub mod AtomicQueue
use reactive_mutiny.Common.{ℕ, ◌+◌, Bool, Option, none, some, List, get_or, set, Run, ◌>>=◌}
use reactive_mutiny.Container.{MoveContainer}
use reactive_mutiny.Alloc.Pool
use reactive_mutiny.Alloc.Pool.{Pool}

-- `c` holds the allocator's free ids, and `q` the ids of the published slots.
pub record ZeroCopy (D : Type 0) (c q : MoveContainer ℕ) : Type 0 where
  pub allocator : Pool D c
  pub queue : q.State

module _ {D : Type 0} (c q : MoveContainer ℕ) (pool_size : ℕ) (junk : D) (needs_drop : Bool) where
  -- An allocator's method, called through the queue's state.
  pub on_allocator : {X : Type 0} → Run (Pool D c) X → Run (ZeroCopy D c q) X
  on_allocator m s = elim (m s.allocator) [
    | none ↦ none
    | some (x, p) ↦ some (x, record s { allocator = p })
  ]

  abbrev pub new : Option (ZeroCopy D c q)
  new = elim (Pool.new c pool_size junk needs_drop) [
    | none ↦ none
    | some p ↦ some (record { allocator = p; queue = q.new })
  ]

  pub leak_slot : Run (ZeroCopy D c q) (Option (ℕ × ℕ))
  unfolding on_allocator
  leak_slot = on_allocator (Pool.alloc_ref c pool_size junk needs_drop)

  pub publish_leaked_id : ℕ → Run (ZeroCopy D c q) (Option ℕ)
  publish_leaked_id slot_id s = elim (q.publish_movable slot_id s.queue) [
    | none ↦ none
    | some (out, fl) ↦ some (out.0, record s { queue = fl })
  ]

  abbrev pub publish_leaked_ref : ℕ → Run (ZeroCopy D c q) (Option ℕ)
  unfolding publish_leaked_id
  publish_leaked_ref slot = publish_leaked_id (Pool.id_from_ref c pool_size junk needs_drop slot)

  -- The length after the publication, and the setter back if nothing was published.
  abbrev pub publish : (D → D) → Run (ZeroCopy D c q) (Option ℕ × Option (D → D))
  unfolding leak_slot publish_leaked_id
  publish setter = do
    slot ← leak_slot
    elim slot [
      | some (slot_ref, slot_id) ↦ λ s.
          (publish_leaked_id slot_id >>= λ len s'. some ((len, none), s')) (record s {
            allocator = record (s.allocator) {
              pool = set s.allocator.pool slot_ref (setter (get_or s.allocator.pool slot_ref junk));
            };
          })
      | none ↦ λ s. some ((none, some setter), s)
    ]

  pub publish_movable : D → Run (ZeroCopy D c q) (Option ℕ × Option D)
  unfolding leak_slot publish_leaked_id
  publish_movable item = do
    slot ← leak_slot
    elim slot [
      | some (slot_ref, slot_id) ↦ λ s.
          (publish_leaked_id slot_id >>= λ len s'. some ((len, none), s')) (record s {
            allocator = record (s.allocator) { pool = set s.allocator.pool slot_ref item };
          })
      | none ↦ λ s. some ((none, some item), s)
    ]

  pub unleak_slot_id : ℕ → Run (ZeroCopy D c q) (Unit {0})
  unfolding on_allocator
  unleak_slot_id slot_id = on_allocator (Pool.dealloc_id c pool_size junk needs_drop slot_id)

  abbrev pub unleak_slot_ref : ℕ → Run (ZeroCopy D c q) (Unit {0})
  unfolding on_allocator
  unleak_slot_ref slot = on_allocator (Pool.dealloc_ref c pool_size junk needs_drop slot)

  pub release_leaked_ref : ℕ → Run (ZeroCopy D c q) (Unit {0})
  unfolding on_allocator
  release_leaked_ref slot = on_allocator (Pool.dealloc_ref c pool_size junk needs_drop slot)

  pub available_elements_count : ZeroCopy D c q → ℕ
  available_elements_count s = q.available_elements_count s.queue

  pub consume_leaking : Run (ZeroCopy D c q) (Option (ℕ × ℕ))
  consume_leaking s = elim (q.consume_movable s.queue) [
    | none ↦ none
    | some (none, fl) ↦ some (none, record s { queue = fl })
    | some (some slot_id, fl) ↦ some (
      some (Pool.ref_from_id c pool_size junk needs_drop slot_id, slot_id),
      record s { queue = fl },
    )
  ]

  pub release_leaked_id : ℕ → Run (ZeroCopy D c q) (Unit {0})
  unfolding on_allocator
  release_leaked_id slot_id = on_allocator (Pool.dealloc_id c pool_size junk needs_drop slot_id)

  -- What the getter made of the element, and what `report_len_after_dequeueing_fn` was told.
  pub consume : {X : Type 0} → (D → X) → Run (ZeroCopy D c q) (Option (X × ℕ))
  unfolding consume_leaking release_leaked_id available_elements_count
  consume getter = do
    slot ← consume_leaking
    elim slot [
      | some (slot_ref, slot_id) ↦ λ s.
          (release_leaked_id slot_id >>= λ _ s'.
          some
            (some (getter (get_or s.allocator.pool slot_ref junk), available_elements_count s), s'))
            s
      | none ↦ λ s. some (none, s)
    ]
