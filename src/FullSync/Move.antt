-- ===== src/FullSync/Move.antt =====
-- FullSyncMove of src/ogre_std/ogre_queues/full_sync/full_sync_move.rs: a ring buffer whose every
-- operation runs under one lock flag. An operation that would spin for ever on a lock that nobody
-- releases has the result `none`.
pub mod Refine
pub mod Lifecycle
pub mod Retry
pub mod Container
pub mod InPlace
use reactive_mutiny.Common.{
  ℕ, suc, zero, ◌+◌, ◌%◌, ◌^◌, Bool, true, false, Option, none, some, List, [], ◌∷◌, get_or, set,
  replicate, ltb, ◌==◌, if◌then◌else◌, add_u32, sub_u32, is_pos_i32, Run, ◌>>=◌, return,
  non_zero_u32,
}
use reactive_mutiny.Ring.{peek_slices}

pub record FullSyncMove {ℓ} (A : Type ℓ) : Type ℓ where
  pub head : ℕ
  pub tail : ℕ
  pub concurrency_guard : Bool
  pub buffer : List A

-- What `leak_slot_internal` hands out: the index of a slot in the buffer, its id, and the number of
-- elements before it.
pub record Leaked : Type 0 where
  pub index : ℕ
  pub slot_id : ℕ
  pub len_before : ℕ

-- `d` is `SlotType::default()`, and `size` is BUFFER_SIZE.
module _ {ℓ} {A : Type ℓ} (d : A) (size : ℕ) where
  pub with_initializer : A → FullSyncMove A
  with_initializer slot = record {
    head = 0;
    tail = 0;
    concurrency_guard = false;
    buffer = replicate size slot;
  }

  pub new : FullSyncMove A
  unfolding with_initializer
  new = with_initializer d

  -- `ogre_sync::lock` and `ogre_sync::unlock`, on the queue's flag
  lock : Run (FullSyncMove A) (Unit {0})
  lock r = if r.concurrency_guard then none else some (tt, record r { concurrency_guard = true })

  unlock : FullSyncMove A → FullSyncMove A
  unlock r = record r { concurrency_guard = false }

  pub available_elements_count : FullSyncMove A → ℕ
  available_elements_count r = sub_u32 r.tail r.head

  -- One round of the loop of `leak_slot_internal`; it leaves the lock taken where it finds a slot.
  try_leak_slot : Run (FullSyncMove A) (Option Leaked)
  unfolding lock unlock
  try_leak_slot = do
    _ ← lock
    λ r.
        let len_before = sub_u32 r.tail r.head in
        if ltb len_before (size % 2 ^ 32)
        then some
            (some (record { index = r.tail % size; slot_id = r.tail; len_before = len_before }), r)
        else some (none, unlock r)

  -- The list holds, for each round after which `report_full_fn` asks for another, what other
  -- threads do to the queue meanwhile. Past its end `report_full_fn` answers `false`.
  pub leak_slot_internal :
      List (FullSyncMove A → FullSyncMove A) → Run (FullSyncMove A) (Option Leaked)
  unfolding try_leak_slot
  leak_slot_internal [] = try_leak_slot
  leak_slot_internal (others ∷ reports) = do
    slot ← try_leak_slot
    λ r. elim slot [ some s ↦ some (some s, r) | none ↦ leak_slot_internal reports (others r) ]

  pub publish_leaked_internal : FullSyncMove A → FullSyncMove A
  unfolding unlock
  publish_leaked_internal r = unlock (record r { tail = add_u32 r.tail 1 })

  pub unleak_internal : FullSyncMove A → FullSyncMove A
  unfolding unlock
  unleak_internal r = unlock (record r { tail = sub_u32 r.tail 1 })

  pub publish_movable : A → Run (FullSyncMove A) (Option ℕ × Option A)
  unfolding leak_slot_internal publish_leaked_internal
  publish_movable item = do
    slot ← leak_slot_internal []
    λ r. elim slot [
      | some s ↦ some (
        (non_zero_u32 (add_u32 s.len_before 1), none),
        publish_leaked_internal (record r { buffer = set r.buffer s.index item }),
      )
      | none ↦ some ((none, some item), r)
    ]

  -- The setter back if nothing was published, and what `report_len_after_enqueueing_fn` was told.
  pub publish :
      (A → A)
      → List (FullSyncMove A → FullSyncMove A)
      → Run (FullSyncMove A) (Option (A → A) × Option ℕ)
  unfolding leak_slot_internal publish_leaked_internal
  publish setter reports = do
    slot ← leak_slot_internal reports
    λ r. elim slot [
      | some s ↦ some (
        (none, some (add_u32 s.len_before 1)),
        publish_leaked_internal
            (record r { buffer = set r.buffer s.index (setter (get_or r.buffer s.index d)) }),
      )
      | none ↦ some ((some setter, none), r)
    ]

  -- One round of the loop of `consume_leaking_internal`: the slot's index and the length before.
  try_consume_leaking : Run (FullSyncMove A) (Option (ℕ × ℕ))
  unfolding lock unlock available_elements_count
  try_consume_leaking = do
    _ ← lock
    λ r.
        let len_before = available_elements_count r in
        if is_pos_i32 len_before
        then some (some (r.head % size, len_before), r)
        else some (none, unlock r)

  pub consume_leaking_internal :
      List (FullSyncMove A → FullSyncMove A) → Run (FullSyncMove A) (Option (ℕ × ℕ))
  unfolding try_consume_leaking
  consume_leaking_internal [] = try_consume_leaking
  consume_leaking_internal (others ∷ reports) = do
    slot ← try_consume_leaking
    λ r. elim slot [
      | some s ↦ some (some s, r)
      | none ↦ consume_leaking_internal reports (others r)
    ]

  pub release_leaked_internal : FullSyncMove A → FullSyncMove A
  release_leaked_internal r = record r { head = add_u32 r.head 1 }

  pub consume_movable : Run (FullSyncMove A) (Option A)
  unfolding consume_leaking_internal release_leaked_internal unlock
  consume_movable = do
    slot ← consume_leaking_internal []
    λ r. elim slot [
      | some (index, len_before) ↦
          some (some (get_or r.buffer index d), unlock (release_leaked_internal r))
      | none ↦ some (none, r)
    ]

  -- The two slices of the buffer that hold the elements.
  pub peek_remaining : FullSyncMove A → List A × List A
  peek_remaining r =
      if r.head == r.tail
      then ([], [])
      else peek_slices size r.buffer (r.head % size) (r.tail % size)

  -- `Drop`: the elements dropped, with fuel for the rounds of the loop.
  pub drop_all : ℕ → FullSyncMove A → Option (List A)
  unfolding unlock
  drop_all zero r = none
  drop_all (suc fuel) r = elim (consume_movable (unlock r)) [
    | none ↦ none
    | some (none, r') ↦ some []
    | some (some item, r') ↦ elim (drop_all fuel r') [
      | none ↦ none
      | some items ↦ some (item ∷ items)
    ]
  ]
