-- ===== src/Alloc/Arc/Counting.antt =====
-- OgreArc: the count in a box and its living handles.
use reactive_mutiny.Common.{
  ℕ, ◌+◌, ◌^◌, ◌<◌, ◌≤◌, ◌≡◌, ◌≢◌, refl, ap, Bool, none, some, List, [], ◌∷◌, ◌++◌, arith, length,
  count, count-append, count-replicate, replicate, add_u32, ◌==◌, Option-cases, inl, inr,
  if◌then◌else◌, length-append, length-replicate, count-le-length,
}
use reactive_mutiny.Container.{MoveContainer}
use reactive_mutiny.Alloc.Pool.Ownership.{IsSound}
use reactive_mutiny.Alloc.Arc.{
  Inner, Heap, find, set_count, Arcs, increment_references, references_count,
}
use reactive_mutiny.Alloc.Arc.Boxes.{
  slots, Counted, find-Counted, slots-set_count, Counted-set_count, find-set_count-none,
  find-set_count_live,
}

module _ {D : Type 0} (c : MoveContainer ℕ) (pool_size : ℕ) where
  -- `handles` are the living handles, and `outside` the slots that other owners hold.
  pub record IsCounted (handles outside : List ℕ) (s : Arcs D c) : Type 0 where
    pub owned : IsSound c pool_size (slots s.heap ++ outside) s.allocator
    pub counted : Counted handles s.heap
    pub known : (a : ℕ) → 0 < count a handles → find a s.heap ≢ none
    pub unused : (a : ℕ) → s.fresh ≤ a → find a s.heap ≡ none
    pub few : length handles < 2 ^ 32

  -- A living handle finds its box, which counts the handle.
  pub live_box :
      {handles outside : List ℕ} {s : Arcs D c} (a : ℕ)
      → IsCounted handles outside s
      → 0 < count a handles
      → (inner : Inner) × (find a s.heap ≡ some inner) × (inner.references_count ≡ count a handles)
  live_box {handles} {outside} {s} a v live = elim (Option-cases (find a s.heap)) [
    | inl gone ↦ absurd (v.known a live gone)
    | inr (inner, e) ↦ (inner, e, find-Counted handles a s.heap inner v.counted e)
  ]

  -- Where no handle is left, no box is: every slot is free again, or held by another owner.
  pub none_left : {outside : List ℕ} (s : Arcs D c) → IsCounted [] outside s → s.heap ≡ []
  none_left {outside} s v = empty s.heap v.counted
    where
      empty : (h : Heap) → Counted [] h → h ≡ []
      empty [] w = refl
      empty (b ∷ h) w = absurd (omega (arith, w.1))

  module _ (junk : D) (needs_drop : Bool) where
    -- `references_count` is the number of living handles to the same box.
    pub references_count-handles :
        {handles outside : List ℕ} {s : Arcs D c} (a : ℕ)
        → IsCounted handles outside s
        → 0 < count a handles
        → references_count c pool_size junk needs_drop a s ≡ some (count a handles)
    unfolding references_count
    references_count-handles {s} a v live =
        let (inner, e, n) = live_box a v live in rw (e, references_count) (ap some n)

    more_handles :
        (handles : List ℕ) (a n b : ℕ)
        → count b (replicate n a ++ handles) ≡ (if b == a then n else 0) + count b handles
    more_handles handles a n b =
        omega (arith, count-append b (replicate n a) handles, count-replicate b n a)

    -- Raising a box's count by `n` accounts for `n` more handles to it.
    pub increment_references-IsCounted :
        {handles outside : List ℕ} {s : Arcs D c} (a n : ℕ)
        → IsCounted handles outside s
        → 0 < count a handles
        → length handles + n < 2 ^ 32
        → (s' : Arcs D c) × (increment_references c pool_size junk needs_drop a n s ≡ some (a, s'))
          × IsCounted (replicate n a ++ handles) outside s'
          × (s'.allocator ≡ s.allocator)
    unfolding increment_references
    increment_references-IsCounted {handles} {outside} {s} a n v live lt =
        let (inner, e, refs) = live_box a v live in go inner e refs
      where
        go :
            (inner : Inner)
            → find a s.heap ≡ some inner
            → inner.references_count ≡ count a handles
            → (s' : Arcs D c) × (increment_references c pool_size junk needs_drop a n s
                ≡ some (a, s'))
              × IsCounted (replicate n a ++ handles) outside s'
              × (s'.allocator ≡ s.allocator)
        go inner e refs = (
          record s { heap = set_count a raised s.heap },
          rw (e, increment_references),
          record {
            owned = rw (slots-set_count a raised s.heap) v.owned;
            counted =
                Counted-set_count handles (replicate n a ++ handles) a raised s.heap v.counted
                  (omega (arith, in_word, more_handles handles a n a, ground_self))
                  (omega (arith, in_word)) (λ b other. ground (arith, more_handles handles a n b));
            known = λ b pos.
                find-set_count_live b a raised s.heap
                  (v.known b (ground (arith, more_handles handles a n b)));
            unused = λ b le. find-set_count-none b a raised s.heap (v.unused b le);
            few = omega (arith, length-append (replicate n a) handles, length-replicate n a);
          },
          refl,
        )
          where
            raised : ℕ
            raised = add_u32 inner.references_count n

            in_word : raised ≡ count a handles + n
            in_word = omega (arith, refs, count-le-length a handles)

            ground_self : (if a == a then n else 0) ≡ n
            ground_self = ground arith
