-- ===== src/Alloc/Pool/Values.antt =====
-- OgreArrayPoolAllocator: references, ids, and the values in the slots.
use native.Mathlib.Nat.{mod-eq_of_lt}
use reactive_mutiny.Common.{
  ℕ, ◌^◌, ◌<◌, ◌≡◌, ◌≢◌, refl, ap, ◌∙◌, Bool, Option, none, some, List, arith, get_or, set,
  length-set, get_or-set_self, get_or-set_ne, ◌>>=◌, Run,
}
use reactive_mutiny.Container.{MoveContainer}
use reactive_mutiny.Alloc.Pool.{
  Pool, alloc_ref, alloc_with, alloc_with_async, dealloc_id, dealloc_ref, id_from_ref, ref_from_id,
}
use reactive_mutiny.Alloc.Pool.Ownership.{IsSound, Allocated, got, exhausted, alloc_ref-Allocated}

module _ {D : Type 0} (c : MoveContainer ℕ) (pool_size : ℕ) (junk : D) (needs_drop : Bool) where
  pub ref_from_id_lem :
      (slot_id : ℕ)
      → slot_id < pool_size
      → ref_from_id c pool_size junk needs_drop slot_id ≡ slot_id
  unfolding ref_from_id
  ref_from_id_lem slot_id lt = mod-eq_of_lt lt

  -- The reference of an id leads back to the id, for every slot of the pool.
  pub id_from_ref-ref_from_id :
      (slot_id : ℕ)
      → slot_id < pool_size
      → pool_size < 2 ^ 32
      → id_from_ref c pool_size junk needs_drop (ref_from_id c pool_size junk needs_drop slot_id)
        ≡ slot_id
  unfolding id_from_ref ref_from_id
  id_from_ref-ref_from_id slot_id lt word = rw (mod-eq_of_lt lt) (omega arith)

  -- Freeing a slot by its reference is freeing it by its id.
  pub dealloc_ref-ref_from_id :
      (slot_id : ℕ) (s : Pool D c)
      → slot_id < pool_size
      → pool_size < 2 ^ 32
      → dealloc_ref c pool_size junk needs_drop (ref_from_id c pool_size junk needs_drop slot_id) s
        ≡ dealloc_id c pool_size junk needs_drop slot_id s
  dealloc_ref-ref_from_id slot_id s lt word =
      by_id (ref_from_id c pool_size junk needs_drop slot_id)
      ∙ ap (λ i. dealloc_id c pool_size junk needs_drop i s)
          (id_from_ref-ref_from_id slot_id lt word)
    where
      by_id :
          (ref : ℕ)
          → dealloc_ref c pool_size junk needs_drop ref s
            ≡ dealloc_id c pool_size junk needs_drop (id_from_ref c pool_size junk needs_drop ref) s
      by_id ref = unfold dealloc_ref in refl

  -- What `alloc_with` does to the values: the slot handed out holds what the setter made of its old
  -- content, and no other slot changes.
  abbrev pub Filled : (D → D) → Pool D c → Pool D c → Option (ℕ × ℕ) → Type 0
  Filled setter s s' none = s'.pool ≡ s.pool
  Filled setter s s' (some (ref, slot_id)) =
      (get_or s'.pool slot_id junk ≡ setter (get_or s.pool slot_id junk))
      × ((j : ℕ) → slot_id ≢ j → get_or s'.pool j junk ≡ get_or s.pool j junk)

  -- `alloc_with` hands out a slot that nobody holds, filled by the setter, and leaves the others alone.
  pub alloc_with-Filled :
      {held : List ℕ} (setter : D → D) (s : Pool D c)
      → IsSound c pool_size held s
      → (o : Option (ℕ × ℕ)) × (s' : Pool D c) × (alloc_with c pool_size junk needs_drop setter s
          ≡ some (o, s'))
        × Allocated c pool_size held s' o
        × Filled setter s s' o
  alloc_with-Filled {held} setter s v =
      let (o, s1, e, a, same, drops) = alloc_ref-Allocated c pool_size junk needs_drop s v in
      go o s1 e a same
    where
      go :
          (o : Option (ℕ × ℕ)) (s1 : Pool D c)
          → alloc_ref c pool_size junk needs_drop s ≡ some (o, s1)
          → Allocated c pool_size held s1 o
          → s1.pool ≡ s.pool
          → (o : Option (ℕ × ℕ)) × (s' : Pool D c) × (alloc_with c pool_size junk needs_drop setter
                s
              ≡ some (o, s'))
            × Allocated c pool_size held s' o
            × Filled setter s s' o
      go _ s1 e (exhausted h w) same =
          (none, s1, unfold alloc_with in rw (e, ◌>>=◌), exhausted h w, same)
      go _ s1 e (got i lt new w) same = (
        some (i, i),
        record s1 { pool = set s1.pool i (setter (get_or s1.pool i junk)) },
        unfold alloc_with in rw (e, ◌>>=◌),
        got i lt new (record {
          ready = w.ready;
          shape = length-set s1.pool i _ ∙ w.shape;
          shared = w.shared;
        }),
        (
          get_or-set_self s1.pool i _ junk (rw w.shape lt)
              ∙ ap (λ p. setter (get_or p i junk)) same,
          λ j ne. get_or-set_ne s1.pool i j _ junk ne ∙ ap (λ p. get_or p j junk) same,
        ),
      )

  -- A setter that is done at once.
  abbrev pub at_once : (D → D) → ℕ → ℕ → Run (Pool D c) (ℕ × ℕ)
  at_once setter ref slot_id s =
      some ((ref, slot_id), record s { pool = set s.pool ref (setter (get_or s.pool ref junk)) })

  -- With a setter that does not wait, `alloc_with_async` does what `alloc_with` does.
  pub alloc_with_async-at_once :
      (setter : D → D) (s : Pool D c)
      → alloc_with_async c pool_size junk needs_drop (at_once setter) s
        ≡ alloc_with c pool_size junk needs_drop setter s
  unfolding alloc_with alloc_with_async
  alloc_with_async-at_once setter s = go (alloc_ref c pool_size junk needs_drop s) refl
    where
      go :
          (m : Option (Option (ℕ × ℕ) × Pool D c))
          → alloc_ref c pool_size junk needs_drop s ≡ m
          → alloc_with_async c pool_size junk needs_drop (at_once setter) s
            ≡ alloc_with c pool_size junk needs_drop setter s
      go none e = rw (e, ◌>>=◌)
      go (some (none, s1)) e = rw (e, ◌>>=◌)
      go (some (some (ref, slot_id), s1)) e = rw (e, ◌>>=◌)
