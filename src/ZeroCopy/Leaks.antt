-- ===== src/ZeroCopy/Leaks.antt =====
-- The zero-copy queues: slots that are reserved, then published or given back.
use reactive_mutiny.Common.{
  ℕ, ◌+◌, ◌<◌, ◌≤◌, ◌≡◌, refl, Bool, true, some, List, [], ◌∷◌, ◌++◌, arith, length, count, remove,
  count-append, count-remove, count-le-length, length-append, ltb, lt→ltb, shared_length,
}
use reactive_mutiny.Fifo
use reactive_mutiny.Container.{MoveContainer}
use reactive_mutiny.Alloc.Pool.Ownership.{IsSound, IsSound-cong, dealloc_id-IsSound}
use reactive_mutiny.ZeroCopy.{ZeroCopy, on_allocator, publish_leaked_id, unleak_slot_id}
use reactive_mutiny.ZeroCopy.Stock.{IsStocked}

module _ {D : Type 0} (c q : MoveContainer ℕ) (pool_size : ℕ) (junk : D) (needs_drop : Bool) where
  -- A leaked slot is in no queue once it is taken out of the leaked ones.
  moved :
      (i j : ℕ) (ids leaked : List ℕ)
      → 0 < count i leaked
      → count j (remove i (ids ++ leaked)) ≡ count j (ids ++ remove i leaked)
  moved i j ids leaked has = omega (
    arith,
    count-remove i j (ids ++ leaked) (omega (arith, count-append i ids leaked)),
    count-remove i j leaked has,
    count-append j ids leaked,
    count-append j ids (remove i leaked),
  )

  -- Publishing a leaked slot puts it at the end of the queue and reports the new length: the queue
  -- has room for every slot of the allocator.
  pub publish_leaked_id-IsStocked :
      {leaked : List ℕ} (slot_id : ℕ) (s : ZeroCopy D c q)
      → pool_size ≤ q.max_size
      → IsStocked c q pool_size leaked s
      → 0 < count slot_id leaked
      → (s' : ZeroCopy D c q) × (publish_leaked_id c q pool_size junk needs_drop slot_id s
          ≡ some (some (length (q.contents s.queue) + 1), s'))
        × (q.contents s'.queue ≡ q.contents s.queue ++ (slot_id ∷ []))
        × (s'.allocator ≡ s.allocator)
        × IsStocked c q pool_size (remove slot_id leaked) s'
  unfolding Fifo.publish
  publish_leaked_id-IsStocked {leaked} i s fits v has =
      let (fl, e, left, ready) = q.publish_refines i s.queue v.ready in
      (
        record s { queue = fl },
        (unfold publish_leaked_id in rw (e, publish_leaked_id) (rw room refl)),
        rw (left, room) refl,
        refl,
        record { ready = ready; owned = rw (left, room) owned },
      )
    where
      ids : List ℕ
      ids = q.contents s.queue

      room : ltb (length ids) q.max_size ≡ true
      room = lt→ltb _ _ (
          omega (
            arith,
            shared_length pool_size (c.contents s.allocator.free_list) (ids ++ leaked)
                v.owned.shared,
            length-append ids leaked,
            count-le-length i leaked,
          ))

      owned : IsSound c pool_size ((ids ++ (i ∷ [])) ++ remove i leaked) s.allocator
      owned =
          IsSound-cong c pool_size {held = ids ++ leaked}
            (λ j. omega (
              arith,
              count-append j (ids ++ (i ∷ [])) (remove i leaked),
              count-append j ids (i ∷ []),
              count-append j ids leaked,
              count-remove i j leaked has,
            ))
            v.owned

  -- Giving a leaked slot back frees exactly that slot, and leaves the published ones alone.
  pub unleak_slot_id-IsStocked :
      {leaked : List ℕ} (slot_id : ℕ) (s : ZeroCopy D c q)
      → pool_size ≤ c.max_size
      → IsStocked c q pool_size leaked s
      → 0 < count slot_id leaked
      → (s' : ZeroCopy D c q) × (unleak_slot_id c q pool_size junk needs_drop slot_id s
          ≡ some (tt, s'))
        × (s'.queue ≡ s.queue)
        × IsStocked c q pool_size (remove slot_id leaked) s'
  unleak_slot_id-IsStocked {leaked} i s fits v has =
      let (p, done, sound, same, ran) =
        dealloc_id-IsSound c pool_size junk needs_drop i s.allocator fits v.owned held in
      (
        record s { allocator = p },
        (unfold unleak_slot_id in rw (done, on_allocator) refl),
        refl,
        record {
          ready = v.ready;
          owned =
              IsSound-cong c pool_size {held = remove i (q.contents s.queue ++ leaked)}
                (λ j. moved i j (q.contents s.queue) leaked has) sound;
        },
      )
    where
      held : 0 < count i (q.contents s.queue ++ leaked)
      held = omega (arith, count-append i (q.contents s.queue) leaked)
