-- ===== src/Alloc/Pool/Ownership.antt =====
-- Who owns which slot of an OgreArrayPoolAllocator: the free ids and the held ones.
use mathlib.Core.List.{append-nil, append_assoc}
use reactive_mutiny.Common.{
  ℕ, ◌+◌, ◌%◌, ◌^◌, ◌<◌, ◌≤◌, ◌≡◌, refl, sym, ap, ◌∙◌, Bool, true, Option, none, some, List, [],
  ◌∷◌, ◌++◌, arith, length, get_or, length-replicate, replicate, count, remove, IsShared, hand_out,
  take_back, shared_length, count-le-length, length-append, up_from, count-up_from, length-up_from,
  ltb, lt→ltb, if◌then◌else◌, ◌>>=◌,
}
use reactive_mutiny.Fifo
use reactive_mutiny.Container.{MoveContainer}
use reactive_mutiny.Alloc.Pool.{Pool, publish_all, new, alloc_ref, dealloc_id}

module _ {D : Type 0} (c : MoveContainer ℕ) (pool_size : ℕ) where
  -- `held` lists the ids that were handed out and not given back.
  pub record IsSound (held : List ℕ) (s : Pool D c) : Type 0 where
    pub ready : c.IsReady s.free_list
    pub shape : length s.pool ≡ pool_size
    pub shared : IsShared pool_size (c.contents s.free_list) held

  -- The order of the held ids does not matter.
  pub IsSound-cong :
      {held held' : List ℕ} {s : Pool D c}
      → ((i : ℕ) → count i held ≡ count i held')
      → IsSound held s
      → IsSound held' s
  IsSound-cong e v = record {
    ready = v.ready;
    shape = v.shape;
    shared = λ i. omega (arith, v.shared i, e i);
  }

  -- The free slots and the held ones make up the pool.
  free-add-held :
      {held : List ℕ} (s : Pool D c)
      → IsSound held s
      → length (c.contents s.free_list) + length held ≡ pool_size
  free-add-held {held} s v = shared_length pool_size (c.contents s.free_list) held v.shared

  -- How an allocation ends: with a slot that nobody held, or because all are held.
  pub data Allocated (held : List ℕ) (s : Pool D c) : Option (ℕ × ℕ) → Type 0 where
    got :
        (slot_id : ℕ)
        → slot_id < pool_size
        → count slot_id held ≡ 0
        → IsSound (slot_id ∷ held) s
        → Allocated held s (some (slot_id, slot_id))
    exhausted : length held ≡ pool_size → IsSound held s → Allocated held s none

  module _ (junk : D) (needs_drop : Bool) where
    alloc_ref_step :
        (s : Pool D c) (fl : c.State) (o : Option ℕ)
        → c.consume_movable s.free_list ≡ some (o, fl)
        → alloc_ref c pool_size junk needs_drop s
          ≡ some ((elim o [ none ↦ none | some i ↦ some (i, i) ]), record s { free_list = fl })
    unfolding alloc_ref
    alloc_ref_step s fl none e = rw (e, alloc_ref)
    alloc_ref_step s fl (some i) e = rw (e, alloc_ref)

    -- `alloc_ref` always returns, leaves the slots' values alone, and hands out a slot that nobody
    -- holds; it answers `None` only when every slot is held.
    pub alloc_ref-Allocated :
        {held : List ℕ} (s : Pool D c)
        → IsSound held s
        → (o : Option (ℕ × ℕ)) × (s' : Pool D c) × (alloc_ref c pool_size junk needs_drop s
            ≡ some (o, s'))
          × Allocated held s' o
          × (s'.pool ≡ s.pool)
          × (s'.drops ≡ s.drops)
    unfolding Fifo.consume
    alloc_ref-Allocated {held} s v =
        let (fl, e, left, ready) = c.consume_refines s.free_list v.ready in
        go (c.contents s.free_list) refl fl e left ready
      where
        go :
            (q : List ℕ)
            → c.contents s.free_list ≡ q
            → (fl : c.State)
            → c.consume_movable s.free_list ≡ some ((Fifo.consume (c.contents s.free_list)).0, fl)
            → c.contents fl ≡ (Fifo.consume (c.contents s.free_list)).1
            → c.IsReady fl
            → (o : Option (ℕ × ℕ)) × (s' : Pool D c) × (alloc_ref c pool_size junk needs_drop s
                ≡ some (o, s'))
              × Allocated held s' o
              × (s'.pool ≡ s.pool)
              × (s'.drops ≡ s.drops)
        go [] eq fl e left ready = (
          none,
          record s { free_list = fl },
          alloc_ref_step s fl none (rw eq at e),
          exhausted (omega (arith, free-add-held s v, ap length eq)) (record {
            ready = ready;
            shape = v.shape;
            shared = λ i. rw (left, eq) (rw eq at (v.shared i));
          }),
          refl,
          refl,
        )
        go (x ∷ q) eq fl e left ready = (
          some (x, x),
          record s { free_list = fl },
          alloc_ref_step s fl (some x) (rw eq at e),
          got x (hand_out pool_size x q held all).0 (hand_out pool_size x q held all).1 (record {
            ready = ready;
            shape = v.shape;
            shared = λ i. rw (left, eq) ((hand_out pool_size x q held all).2 i);
          }),
          refl,
          refl,
        )
          where
            all : IsShared pool_size (x ∷ q) held
            all i = rw eq at (v.shared i)

    -- `dealloc_id` of a held slot always returns, and frees exactly that slot: the free list has room
    -- for it. The destructor runs on the slot's value if the type needs it.
    pub dealloc_id-IsSound :
        {held : List ℕ} (slot_id : ℕ) (s : Pool D c)
        → pool_size ≤ c.max_size
        → IsSound held s
        → 0 < count slot_id held
        → (s' : Pool D c) × (dealloc_id c pool_size junk needs_drop slot_id s ≡ some (tt, s'))
          × IsSound (remove slot_id held) s'
          × (s'.pool ≡ s.pool)
          × (s'.drops
              ≡ (if needs_drop then s.drops ++ (get_or s.pool slot_id junk ∷ []) else s.drops))
    unfolding dealloc_id Fifo.publish
    dealloc_id-IsSound {held} slot_id s fits v has =
        let (fl, e, left, ready) = c.publish_refines slot_id s.free_list v.ready in
        (
          record s {
            free_list = fl;
            drops = (if needs_drop then s.drops ++ (get_or s.pool slot_id junk ∷ []) else s.drops);
          },
          rw (e, dealloc_id),
          record {
            ready = ready;
            shape = v.shape;
            shared = λ i.
                rw (left, room)
                  (take_back pool_size slot_id (c.contents s.free_list) held v.shared has i);
          },
          refl,
          refl,
        )
      where
        room : ltb (length (c.contents s.free_list)) c.max_size ≡ true
        room = lt→ltb _ _ (omega (arith, free-add-held s v, count-le-length slot_id held))

    publish_all-contents :
        (ids : List ℕ) (fl : c.State)
        → c.IsReady fl
        → length (c.contents fl) + length ids ≤ c.max_size
        → (fl' : c.State) × (publish_all c pool_size junk needs_drop ids fl ≡ some (tt, fl'))
          × (c.contents fl' ≡ c.contents fl ++ ids)
          × c.IsReady fl'
    unfolding publish_all Fifo.publish
    publish_all-contents [] fl v le = (fl, refl, sym (append-nil (c.contents fl)), v)
    publish_all-contents (x ∷ ids) fl v le =
        let (fl1, e1, left1, ready1) = c.publish_refines x fl v in
        let (fl2, e2, left2, ready2) =
          publish_all-contents ids fl1 ready1 (rw (left1, room) (fewer)) in
        (
          fl2,
          rw (e1, ◌>>=◌) e2,
          left2 ∙ rw (left1, room) (append_assoc (c.contents fl) (x ∷ []) ids),
          ready2,
        )
      where
        room : ltb (length (c.contents fl)) c.max_size ≡ true
        room = lt→ltb _ _ (omega arith)

        fewer : length (c.contents fl ++ (x ∷ [])) + length ids ≤ c.max_size
        fewer = omega (arith, length-append (c.contents fl) (x ∷ []))

    -- A new allocator has every slot free.
    pub new-IsSound :
        pool_size ≤ c.max_size
        → pool_size < 2 ^ 32
        → (s : Pool D c) × (new c pool_size junk needs_drop ≡ some s)
          × IsSound [] s
          × (c.contents s.free_list ≡ up_from pool_size 0)
    unfolding new
    new-IsSound fits word =
        let (fl, e, left, ready) =
          publish_all-contents (up_from (pool_size % 2 ^ 32) 0) c.new c.new_ready enough in
        (
          record { pool = replicate pool_size junk; free_list = fl; drops = [] },
          rw (e, new),
          record {
            ready = ready;
            shape = length-replicate pool_size junk;
            shared =
                λ i. rw (left, c.new_empty, whole) (ground (arith, count-up_from i pool_size 0));
          },
          rw (left, c.new_empty, whole),
        )
      where
        whole : pool_size % 2 ^ 32 ≡ pool_size
        whole = omega arith

        enough : length (c.contents c.new) + length (up_from (pool_size % 2 ^ 32) 0) ≤ c.max_size
        enough = rw (c.new_empty, whole) (omega (arith, length-up_from pool_size 0))
