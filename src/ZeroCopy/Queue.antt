-- ===== src/ZeroCopy/Queue.antt =====
-- The zero-copy queues against the bounded queue of their values.
use mathlib.Core.Path.{subst}
use reactive_mutiny.Common.{
  ℕ, ◌+◌, ◌<◌, ◌≤◌, ◌≡◌, refl, sym, ap, ◌∙◌, Bool, true, false, Option, none, some, List, [], ◌∷◌,
  ◌++◌, arith, length, count, remove, get_or, set, get_or-set_self, length-set, count-append,
  length-append, ltb, lt→ltb, le→not_ltb, if◌then◌else◌, ◌>>=◌, shared_length,
}
use reactive_mutiny.Fifo
use reactive_mutiny.Container.{MoveContainer}
use reactive_mutiny.Alloc.Pool
use reactive_mutiny.Alloc.Pool.{Pool}
use reactive_mutiny.Alloc.Pool.Values.{ref_from_id_lem}
use reactive_mutiny.Alloc.Pool.Ownership.{
  IsSound, IsSound-cong, Allocated, got, exhausted, alloc_ref-Allocated, dealloc_id-IsSound,
}
use reactive_mutiny.ZeroCopy.{
  ZeroCopy, on_allocator, leak_slot, publish_leaked_id, publish_movable, consume_leaking,
  release_leaked_id, consume, available_elements_count,
}
use reactive_mutiny.ZeroCopy.Stock.{
  values_of, length-values_of, values_of-append, values_of-set, IsStocked, contents,
}

module _ {D : Type 0} (c q : MoveContainer ℕ) (pool_size : ℕ) (junk : D) (needs_drop : Bool) where
  -- The queue with an element in a slot that nobody held, and the slot's id published.
  abbrev filled : ℕ → D → Pool D c → q.State → ZeroCopy D c q
  filled i item p fl = record { allocator = record p { pool = set p.pool i item }; queue = fl }

  publish_got :
      (item : D) (s : ZeroCopy D c q) (i : ℕ) (p : Pool D c) (fl : q.State)
      (out : Option ℕ × Option ℕ)
      → Pool.alloc_ref c pool_size junk needs_drop s.allocator ≡ some (some (i, i), p)
      → q.publish_movable i s.queue ≡ some (out, fl)
      → publish_movable c q pool_size junk needs_drop item s
        ≡ some ((out.0, none), filled i item p fl)
  publish_got item s i p fl out e e' =
      unfold publish_movable leak_slot publish_leaked_id on_allocator in
      rw (e, ◌>>=◌) (rw (e', ◌>>=◌) refl)

  publish_full :
      (item : D) (s : ZeroCopy D c q) (p : Pool D c)
      → Pool.alloc_ref c pool_size junk needs_drop s.allocator ≡ some (none, p)
      → publish_movable c q pool_size junk needs_drop item s
        ≡ some ((none, some item), record s { allocator = p })
  publish_full item s p e = unfold publish_movable leak_slot on_allocator in rw (e, ◌>>=◌) refl

  -- With no slot leaked and room in the queue for the ids of all slots, `publish_movable` stores the element
  -- at the end and reports the new length, or hands it back when every slot holds an element.
  pub zero_copy_publish_refines :
      (item : D) (s : ZeroCopy D c q)
      → pool_size ≤ q.max_size
      → IsStocked c q pool_size [] s
      → (s' : ZeroCopy D c q) × (publish_movable c q pool_size junk needs_drop item s
          ≡ some ((Fifo.publish pool_size item (contents c q pool_size junk s)).0, s'))
        × (contents c q pool_size junk s'
            ≡ (Fifo.publish pool_size item (contents c q pool_size junk s)).1)
        × IsStocked c q pool_size [] s'
  unfolding Fifo.publish
  zero_copy_publish_refines item s fits v =
      let (o, p, e, a, same, drops) =
        alloc_ref-Allocated c pool_size junk needs_drop s.allocator v.owned in
      go o p e a same
    where
      ids : List ℕ
      ids = q.contents s.queue

      go :
          (o : Option (ℕ × ℕ)) (p : Pool D c)
          → Pool.alloc_ref c pool_size junk needs_drop s.allocator ≡ some (o, p)
          → Allocated c pool_size (ids ++ []) p o
          → p.pool ≡ s.allocator.pool
          → (s' : ZeroCopy D c q) × (publish_movable c q pool_size junk needs_drop item s
              ≡ some ((Fifo.publish pool_size item (contents c q pool_size junk s)).0, s'))
            × (contents c q pool_size junk s'
                ≡ (Fifo.publish pool_size item (contents c q pool_size junk s)).1)
            × IsStocked c q pool_size [] s'
      go _ p e (exhausted h w) same = (
        record s { allocator = p },
        publish_full item s p e ∙ rw full refl,
        rw full (ap (λ l. values_of junk l ids) same),
        record { ready = v.ready; owned = w },
      )
        where
          full : ltb (length (contents c q pool_size junk s)) pool_size ≡ false
          full =
              le→not_ltb _ _
                (omega (arith, length-values_of junk s.allocator.pool ids, length-append ids []))
      go _ p e (got i below new w) same =
          let (fl, e', left, ready) = q.publish_refines i s.queue v.ready in
          (
            filled i item p fl,
            publish_got item s i p fl _ e e'
                ∙ rw (room_q, room)
                    (ap (λ n. some ((some (n + 1), none), filled i item p fl))
                      (sym (length-values_of junk s.allocator.pool ids))),
            rw (left, room_q, room) grown,
            record { ready = ready; owned = rw (left, room_q) owned },
          )
        where
          few : length ids + 1 ≤ pool_size
          few = omega (
            arith,
            shared_length pool_size (c.contents p.free_list) (i ∷ (ids ++ [])) w.shared,
            length-append ids [],
          )

          room_q : ltb (length ids) q.max_size ≡ true
          room_q = lt→ltb _ _ (omega (arith, few))

          room : ltb (length (contents c q pool_size junk s)) pool_size ≡ true
          room = lt→ltb _ _ (omega (arith, few, length-values_of junk s.allocator.pool ids))

          unused : count i ids ≡ 0
          unused = omega (arith, count-append i ids [])

          grown :
              values_of junk (set p.pool i item) (ids ++ (i ∷ []))
              ≡ values_of junk s.allocator.pool ids ++ (item ∷ [])
          grown =
              values_of-append junk (set p.pool i item) ids (i ∷ [])
              ∙ rw
                  (
                    values_of-set junk p.pool i item ids unused,
                    get_or-set_self p.pool i item junk (rw w.shape below),
                    same,
                  )
                  refl

          owned :
              IsSound c pool_size ((ids ++ (i ∷ [])) ++ []) (record p { pool = set p.pool i item })
          owned =
              IsSound-cong c pool_size {held = i ∷ (ids ++ [])}
                (λ j. omega (
                  arith,
                  count-append j (ids ++ (i ∷ [])) [],
                  count-append j ids (i ∷ []),
                  count-append j ids [],
                ))
                (record {
                  ready = w.ready;
                  shape = length-set p.pool i item ∙ w.shape;
                  shared = w.shared;
                })

  consume-none :
      {X : Type 0} (getter : D → X) (s : ZeroCopy D c q) (fl : q.State)
      → q.consume_movable s.queue ≡ some (none, fl)
      → consume c q pool_size junk needs_drop getter s ≡ some (none, record s { queue = fl })
  consume-none getter s fl e = unfold consume consume_leaking in rw (e, ◌>>=◌) refl

  consume-some :
      {X : Type 0} (getter : D → X) (s : ZeroCopy D c q) (i : ℕ) (fl : q.State) (p : Pool D c)
      → q.consume_movable s.queue ≡ some (some i, fl)
      → i < pool_size
      → Pool.dealloc_id c pool_size junk needs_drop i s.allocator ≡ some (tt, p)
      → consume c q pool_size junk needs_drop getter s
        ≡ some (
          some (getter (get_or s.allocator.pool i junk), q.available_elements_count fl),
          record { allocator = p; queue = fl },
        )
  consume-some getter s i fl p e lt e' =
      unfold consume consume_leaking available_elements_count in
      rw (e, ◌>>=◌)
        (rw (released, ◌>>=◌)
          (ap
            (λ k. some (
              some (getter (get_or s.allocator.pool k junk), q.available_elements_count fl),
              record { allocator = p; queue = fl },
            ))
            (ref_from_id_lem c pool_size junk needs_drop i lt)))
    where
      released :
          release_leaked_id c q pool_size junk needs_drop i (record s { queue = fl })
          ≡ some (tt, record { allocator = p; queue = fl })
      released = unfold release_leaked_id in rw (e', on_allocator) refl

  -- With no slot leaked, `consume` hands the oldest element to the getter, reports how many are left,
  -- frees the element's slot and runs the destructor if the type needs it, or answers that there is none.
  pub zero_copy_consume_refines :
      {X : Type 0} (getter : D → X) (s : ZeroCopy D c q)
      → pool_size ≤ c.max_size
      → IsStocked c q pool_size [] s
      → (s' : ZeroCopy D c q) × (consume c q pool_size junk needs_drop getter s
          ≡ some (
            (elim (Fifo.consume (contents c q pool_size junk s)).0 [
              | none ↦ none
              | some x ↦ some (getter x, length (contents c q pool_size junk s'))
            ]),
            s',
          ))
        × (contents c q pool_size junk s' ≡ (Fifo.consume (contents c q pool_size junk s)).1)
        × IsStocked c q pool_size [] s'
        × (s'.allocator.drops ≡ (elim (Fifo.consume (contents c q pool_size junk s)).0 [
          | none ↦ s.allocator.drops
          | some x ↦ if needs_drop then s.allocator.drops ++ (x ∷ []) else s.allocator.drops
        ]))
  unfolding Fifo.consume
  zero_copy_consume_refines {X} getter s fits v =
      let (fl, e, left, ready) = q.consume_refines s.queue v.ready in
      go (q.contents s.queue) refl fl e left ready
    where
      Outcome : List ℕ → Type 0
      Outcome ids =
          (s' : ZeroCopy D c q) × (consume c q pool_size junk needs_drop getter s
            ≡ some (
              (elim (Fifo.consume (values_of junk s.allocator.pool ids)).0 [
                | none ↦ none
                | some x ↦ some (getter x, length (contents c q pool_size junk s'))
              ]),
              s',
            ))
          × (contents c q pool_size junk s'
              ≡ (Fifo.consume (values_of junk s.allocator.pool ids)).1)
          × IsStocked c q pool_size [] s'
          × (s'.allocator.drops ≡ (elim (Fifo.consume (values_of junk s.allocator.pool ids)).0 [
            | none ↦ s.allocator.drops
            | some x ↦ if needs_drop then s.allocator.drops ++ (x ∷ []) else s.allocator.drops
          ]))

      go :
          (ids : List ℕ)
          → q.contents s.queue ≡ ids
          → (fl : q.State)
          → q.consume_movable s.queue ≡ some ((Fifo.consume (q.contents s.queue)).0, fl)
          → q.contents fl ≡ (Fifo.consume (q.contents s.queue)).1
          → q.IsReady fl
          → Outcome (q.contents s.queue)
      go [] eq fl e left ready = subst Outcome (sym eq) (
        record s { queue = fl },
        consume-none getter s fl (rw eq at e),
        ap (values_of junk s.allocator.pool) (rw eq at left),
        record { ready = ready; owned = rw left (rw eq (rw eq at v.owned)) },
        refl,
      )
      go (i ∷ ids) eq fl e left ready =
          let (p, done, sound, same, ran) =
            dealloc_id-IsSound c pool_size junk needs_drop i s.allocator fits v.owned held in
          subst Outcome (sym eq) (
            record { allocator = p; queue = fl },
            consume-some getter s i fl p (rw eq at e) below done
                ∙ ap
                    (λ n. some (
                      some (getter (get_or s.allocator.pool i junk), n),
                      record { allocator = p; queue = fl },
                    ))
                    (q.counts fl ready ∙ sym (length-values_of junk p.pool (q.contents fl))),
            ap (values_of junk p.pool) left_ids ∙ ap (λ l. values_of junk l ids) same,
            record {
              ready = ready;
              owned =
                  IsSound-cong c pool_size {held = remove i (q.contents s.queue ++ [])} freed sound;
            },
            ran,
          )
        where
          held : 0 < count i (q.contents s.queue ++ [])
          held = rw eq (ground arith)

          left_ids : q.contents fl ≡ ids
          left_ids = rw eq at left

          below : i < pool_size
          below = ground (arith, v.owned.shared i, held)

          freed :
              (j : ℕ)
              → count j (remove i (q.contents s.queue ++ [])) ≡ count j (q.contents fl ++ [])
          freed j = rw (left_ids, eq) (ground arith)
