-- ===== src/FullSync/Move/InPlace.antt =====
-- FullSyncMove: filling a slot in place, step by step.
use reactive_mutiny.Common.{
  ℕ, ◌%◌, ◌^◌, ◌≡◌, refl, true, false, none, some, [], arith, sub_u32, add_u32, ltb, if◌then◌else◌,
  non_zero_u32, IsRingSize, ring_size_bounds,
}
use reactive_mutiny.FullSync.Move.{FullSyncMove, leak_slot_internal, publish_leaked_internal}
use reactive_mutiny.FullSync.Move.Refine.{IsReady}

module _ {ℓ} {A : Type ℓ} (d : A) (size : ℕ) where
  -- The length after the publication is no zero word.
  pub room_under :
      (r : FullSyncMove A)
      → IsRingSize size
      → ltb (sub_u32 r.tail r.head) (size % 2 ^ 32) ≡ true
      → non_zero_u32 (add_u32 (sub_u32 r.tail r.head) 1) ≡ some (add_u32 (sub_u32 r.tail r.head) 1)
  room_under r sz room = ground (arith, ring_size_bounds sz)

  -- A slot to fill, the lock being held until it is published.
  pub leak_slot_last :
      (r : FullSyncMove A)
      → IsReady size r
      → leak_slot_internal d size [] r ≡ (
          if ltb (sub_u32 r.tail r.head) (size % 2 ^ 32)
          then some (
            some (record {
              index = r.tail % size;
              slot_id = r.tail;
              len_before = sub_u32 r.tail r.head;
            }),
            record r { concurrency_guard = true },
          )
          else some (none, record r { concurrency_guard = false }))
  unfolding leak_slot_internal
  leak_slot_last r v = rw (v.free, leak_slot_internal) (ground arith)

  pub publish_leaked_internal_lem :
      (r : FullSyncMove A)
      → publish_leaked_internal d size r
        ≡ record r { tail = add_u32 r.tail 1; concurrency_guard = false }
  unfolding publish_leaked_internal
  publish_leaked_internal_lem r = refl
