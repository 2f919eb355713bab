-- ===== src/Alloc/Arc/Drops.antt =====
-- OgreArc: clones and drops of counted handles.
use reactive_mutiny.Common.{
  ℕ, ◌+◌, ◌^◌, ◌<◌, ◌≤◌, ◌≡◌, refl, ap, ◌∙◌, Bool, false, none, some, List, [], ◌∷◌, ◌++◌, arith,
  length, length-remove, count, remove, count-append, count-remove, get_or, sub_u32, ◌==◌,
  if◌then◌else◌, count-le-length,
}
use reactive_mutiny.Container.{MoveContainer}
use reactive_mutiny.Alloc.Pool
use reactive_mutiny.Alloc.Pool.{Pool}
use reactive_mutiny.Alloc.Pool.Ownership.{IsSound-cong, dealloc_id-IsSound}
use reactive_mutiny.Alloc.Arc.{
  Inner, find, set_count, free, Arcs, clone, drop, on_allocator, increment_references,
}
use reactive_mutiny.Alloc.Arc.Boxes.{
  slots, slots-set_count, free-set_count, count-slots-free, Counted-set_count, Counted-free,
  find-set_count-none, find-set_count_live, find-free_none, find-free_live, find_freed,
}
use reactive_mutiny.Alloc.Arc.Counting.{IsCounted, live_box, increment_references-IsCounted}

module _ {D : Type 0} (c : MoveContainer ℕ) (pool_size : ℕ) (junk : D) (needs_drop : Bool) where
  clone-increment :
      (a : ℕ) (s : Arcs D c)
      → clone c pool_size junk needs_drop a s
        ≡ increment_references c pool_size junk needs_drop a 1 s
  unfolding clone increment_references
  clone-increment a s = refl

  -- `clone` of a living handle returns one more handle to its box, and the box counts it.
  pub clone-IsCounted :
      {handles outside : List ℕ} {s : Arcs D c} (a : ℕ)
      → IsCounted c pool_size handles outside s
      → 0 < count a handles
      → length handles + 1 < 2 ^ 32
      → (s' : Arcs D c) × (clone c pool_size junk needs_drop a s ≡ some (a, s'))
        × IsCounted c pool_size (a ∷ handles) outside s'
        × (s'.allocator ≡ s.allocator)
  clone-IsCounted {s} a v live lt =
      let (s', e, v', same) =
        increment_references-IsCounted c pool_size junk needs_drop a 1 v live lt in
      (s', clone-increment a s ∙ e, v', same)

  drop_step :
      (a : ℕ) (s : Arcs D c) (inner : Inner) (p : Pool D c)
      → find a s.heap ≡ some inner
      → inner.references_count ≡ 1
      → Pool.dealloc_id c pool_size junk needs_drop inner.data_id s.allocator ≡ some (tt, p)
      → drop c pool_size junk needs_drop a s
        ≡ some (tt, record s { allocator = p; heap = free a s.heap })
  unfolding drop
  drop_step a s inner p e one done =
      rw (e, drop)
        (rw (one, done, on_allocator)
          (ap (λ h. some (tt, record s { allocator = p; heap = h }))
            (free-set_count a (sub_u32 inner.references_count 1) s.heap)))

  module _ {handles outside : List ℕ} {s : Arcs D c} (a : ℕ)
      (v : IsCounted c pool_size handles outside s) where
    fewer :
        0 < count a handles
        → (b : ℕ) → count b (remove a handles) + (if b == a then 1 else 0) ≡ count b handles
    fewer live b = count-remove a b handles live

    -- Dropping a handle that is not the last one to its box lowers the box's count, and nothing else.
    pub drop_shared :
        1 < count a handles
        → (s' : Arcs D c) × (drop c pool_size junk needs_drop a s ≡ some (tt, s'))
          × IsCounted c pool_size (remove a handles) outside s'
          × (s'.allocator ≡ s.allocator)
    unfolding drop
    drop_shared live =
        let (inner, e, refs) = live_box c pool_size a v (omega arith) in go inner e refs
      where
        go :
            (inner : Inner)
            → find a s.heap ≡ some inner
            → inner.references_count ≡ count a handles
            → (s' : Arcs D c) × (drop c pool_size junk needs_drop a s ≡ some (tt, s'))
              × IsCounted c pool_size (remove a handles) outside s'
              × (s'.allocator ≡ s.allocator)
        go inner e refs = (
          record s { heap = set_count a lowered s.heap },
          rw (e, drop) (rw not_one),
          record {
            owned = rw (slots-set_count a lowered s.heap) v.owned;
            counted =
                Counted-set_count handles (remove a handles) a lowered s.heap v.counted
                  (omega (arith, lowered_by_one, ground_self, fewer (omega arith) a))
                  (omega (arith, lowered_by_one))
                  (λ b other. ground (arith, fewer (omega arith) b));
            known = λ b pos.
                find-set_count_live b a lowered s.heap
                  (v.known b (omega (arith, fewer (omega arith) b)));
            unused = λ b le. find-set_count-none b a lowered s.heap (v.unused b le);
            few = omega (arith, length-remove a handles, v.few);
          },
          refl,
        )
          where
            lowered : ℕ
            lowered = sub_u32 inner.references_count 1

            lowered_by_one : lowered + 1 ≡ count a handles
            lowered_by_one = omega (arith, refs, v.few, count-le-length a handles)

            ground_self : ◌≡◌ {A = ℕ} (if a == a then 1 else 0) 1
            ground_self = ground arith

            not_one : (inner.references_count == 1) ≡ false
            not_one = ground arith

    -- Dropping the last handle to a box frees the box and its slot, and runs the destructor on the
    -- slot's value if the type needs it; the slots of the other boxes stay theirs.
    pub drop_last :
        pool_size ≤ c.max_size
        → count a handles ≡ 1
        → (inner : Inner) × (s' : Arcs D c) × (find a s.heap ≡ some inner)
          × (drop c pool_size junk needs_drop a s ≡ some (tt, s'))
          × IsCounted c pool_size (remove a handles) outside s'
          × (find a s'.heap ≡ none)
          × (s'.allocator.drops ≡ (
              if needs_drop
              then s.allocator.drops ++ (get_or s.allocator.pool inner.data_id junk ∷ [])
              else s.allocator.drops))
    unfolding drop
    drop_last fits one =
        let (inner, e, refs) = live_box c pool_size a v (omega arith) in
        let held_too : 0 < count inner.data_id (slots s.heap ++ outside) = owns inner e in
        let (p, done, sound, same, ran) =
          dealloc_id-IsSound c pool_size junk needs_drop inner.data_id s.allocator fits v.owned
            held_too in
        (
          inner,
          record s { allocator = p; heap = free a s.heap },
          e,
          drop_step a s inner p e (refs ∙ one) done,
          record {
            owned = IsSound-cong c pool_size (λ i. left_over inner e i) sound;
            counted =
                Counted-free handles (remove a handles) a s.heap v.counted
                  (λ b other. ground (arith, fewer (omega arith) b));
            known = λ b pos.
                find-free_live b a s.heap (ground (arith, fewer (omega arith) b))
                  (v.known b (omega (arith, fewer (omega arith) b)));
            unused = λ b le. find-free_none b a s.heap (v.unused b le);
            few = omega (arith, length-remove a handles, v.few);
          },
          find_freed handles a s.heap v.counted,
          ran,
        )
      where
        owns :
            (inner : Inner)
            → find a s.heap ≡ some inner
            → 0 < count inner.data_id (slots s.heap ++ outside)
        owns inner e = ground (
          arith,
          count-slots-free inner.data_id a s.heap inner e,
          count-append inner.data_id (slots s.heap) outside,
        )

        left_over :
            (inner : Inner)
            → find a s.heap ≡ some inner
            → (i : ℕ)
            → count i (remove inner.data_id (slots s.heap ++ outside))
              ≡ count i (slots (free a s.heap) ++ outside)
        left_over inner e i = omega (
          arith,
          count-remove inner.data_id i (slots s.heap ++ outside) (owns inner e),
          count-slots-free i a s.heap inner e,
          count-append i (slots s.heap) outside,
          count-append i (slots (free a s.heap)) outside,
        )
