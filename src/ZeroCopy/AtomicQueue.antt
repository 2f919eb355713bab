-- ===== src/ZeroCopy/AtomicQueue.antt =====
-- AtomicZeroCopy of src/ogre_std/ogre_queues/atomic/atomic_zero_copy.rs: the zero-copy queue whose ids
-- go through an AtomicMove.
use reactive_mutiny.Common.{ℕ, ◌≤◌, ◌≡◌, Bool, Option, some, [], Run, IsRingSize}
use reactive_mutiny.Fifo
use reactive_mutiny.Container.{MoveContainer}
use reactive_mutiny.Atomic.Move.Container.{atomic_move}
use reactive_mutiny.ZeroCopy
use reactive_mutiny.ZeroCopy.{ZeroCopy}
use reactive_mutiny.ZeroCopy.Stock.{IsStocked, contents}
use reactive_mutiny.ZeroCopy.Queue.{zero_copy_publish_refines}

module _ {D : Type 0} (c : MoveContainer ℕ) (pool_size : ℕ) (junk : D) (needs_drop : Bool)
    (BUFFER_SIZE : ℕ) (sz : IsRingSize BUFFER_SIZE) where
  -- `AtomicMove<u32, BUFFER_SIZE>`
  abbrev pub queue : MoveContainer ℕ
  queue = atomic_move 0 BUFFER_SIZE sz

  abbrev pub AtomicZeroCopy : Type 0
  AtomicZeroCopy = ZeroCopy D c queue

  abbrev pub new : Option AtomicZeroCopy
  new = ZeroCopy.new c queue pool_size junk needs_drop

  abbrev pub leak_slot : Run AtomicZeroCopy (Option (ℕ × ℕ))
  leak_slot = ZeroCopy.leak_slot c queue pool_size junk needs_drop

  abbrev pub publish_leaked_id : ℕ → Run AtomicZeroCopy (Option ℕ)
  publish_leaked_id = ZeroCopy.publish_leaked_id c queue pool_size junk needs_drop

  abbrev pub publish_leaked_ref : ℕ → Run AtomicZeroCopy (Option ℕ)
  publish_leaked_ref = ZeroCopy.publish_leaked_ref c queue pool_size junk needs_drop

  abbrev pub publish : (D → D) → Run AtomicZeroCopy (Option ℕ × Option (D → D))
  publish = ZeroCopy.publish c queue pool_size junk needs_drop

  abbrev pub publish_movable : D → Run AtomicZeroCopy (Option ℕ × Option D)
  publish_movable = ZeroCopy.publish_movable c queue pool_size junk needs_drop

  abbrev pub unleak_slot_id : ℕ → Run AtomicZeroCopy (Unit {0})
  unleak_slot_id = ZeroCopy.unleak_slot_id c queue pool_size junk needs_drop

  abbrev pub unleak_slot_ref : ℕ → Run AtomicZeroCopy (Unit {0})
  unleak_slot_ref = ZeroCopy.unleak_slot_ref c queue pool_size junk needs_drop

  abbrev pub available_elements_count : AtomicZeroCopy → ℕ
  available_elements_count = ZeroCopy.available_elements_count c queue pool_size junk needs_drop

  abbrev pub consume_leaking : Run AtomicZeroCopy (Option (ℕ × ℕ))
  consume_leaking = ZeroCopy.consume_leaking c queue pool_size junk needs_drop

  abbrev pub release_leaked_id : ℕ → Run AtomicZeroCopy (Unit {0})
  release_leaked_id = ZeroCopy.release_leaked_id c queue pool_size junk needs_drop

  abbrev pub release_leaked_ref : ℕ → Run AtomicZeroCopy (Unit {0})
  release_leaked_ref = ZeroCopy.release_leaked_ref c queue pool_size junk needs_drop

  abbrev pub consume : {X : Type 0} → (D → X) → Run AtomicZeroCopy (Option (X × ℕ))
  consume = ZeroCopy.consume c queue pool_size junk needs_drop

  -- With no slot leaked and no more slots than the queue has room for: `publish_movable` stores the
  -- element at the end and reports the new length, or hands it back when every slot is taken.
  pub atomic_zero_copy_publish_refines :
      (item : D) (s : AtomicZeroCopy)
      → pool_size ≤ BUFFER_SIZE
      → IsStocked c queue pool_size [] s
      → (s' : AtomicZeroCopy) × (publish_movable item s
          ≡ some ((Fifo.publish pool_size item (contents c queue pool_size junk s)).0, s'))
        × (contents c queue pool_size junk s'
            ≡ (Fifo.publish pool_size item (contents c queue pool_size junk s)).1)
        × IsStocked c queue pool_size [] s'
  atomic_zero_copy_publish_refines item s fits v =
      zero_copy_publish_refines c queue pool_size junk needs_drop item s fits v
