-- ===== src/Alloc/Arc/Create.antt =====
-- OgreArc: new boxes.
use native.Mathlib.Decide.{dec_lt}
use reactive_mutiny.Common.{
  ℕ, ◌+◌, ◌^◌, ◌<◌, ◌≡◌, refl, ap, ◌∙◌, Bool, true, Option, none, some, List, ◌∷◌, ◌++◌, arith,
  length, count, count-append, count-replicate, replicate, get_or, set, length-set, get_or-set_self,
  length-append, length-replicate, ◌==◌, ==_iff, if◌then◌else◌, ◌>>=◌,
}
use reactive_mutiny.Container.{MoveContainer}
use reactive_mutiny.Alloc.Pool
use reactive_mutiny.Alloc.Pool.{Pool}
use reactive_mutiny.Alloc.Pool.Ownership.{
  IsSound, IsSound-cong, Allocated, got, exhausted, alloc_ref-Allocated,
}
use reactive_mutiny.Alloc.Pool.Values.{ref_from_id_lem}
use reactive_mutiny.Alloc.Arc.{
  Arcs, from_allocated_with_clones, from_allocated, new, new_with_clones, new_with, deref,
  on_allocator,
}
use reactive_mutiny.Alloc.Arc.Boxes.{slots, Counted-cong}
use reactive_mutiny.Alloc.Arc.Counting.{IsCounted}

module _ {D : Type 0} (c : MoveContainer ℕ) (pool_size : ℕ) (junk : D) (needs_drop : Bool) where
  -- Before its box is made, an address has no handle.
  fresh_unused :
      {handles outside : List ℕ} {s : Arcs D c}
      → IsCounted c pool_size handles outside s
      → count s.fresh handles ≡ 0
  fresh_unused {handles} {s} v = elim (dec_lt 0 (count s.fresh handles)) [
    | yes live ↦ absurd (v.known s.fresh live (v.unused s.fresh (omega arith)))
    | no h ↦ omega arith
  ]

  -- A box over an allocated slot, with `COUNT` handles, owns the slot.
  pub from_allocated_with_clones-IsCounted :
      {handles before outside : List ℕ} (COUNT data_id : ℕ) (s : Arcs D c) (allocator : Pool D c)
      → IsCounted c pool_size handles before s
      → IsSound c pool_size (data_id ∷ slots s.heap ++ outside) allocator
      → 0 < COUNT
      → length handles + COUNT < 2 ^ 32
      → IsCounted c pool_size
          ((from_allocated_with_clones c pool_size junk needs_drop COUNT data_id
              (record s { allocator = allocator })).0
            ++ handles)
          outside
          (from_allocated_with_clones c pool_size junk needs_drop COUNT data_id
            (record s { allocator = allocator })).1
  unfolding from_allocated_with_clones
  from_allocated_with_clones-IsCounted {handles} COUNT data_id s allocator v sound pos lt = record {
    owned = sound;
    counted = (
      omega (arith, at_fresh),
      omega (arith, at_fresh),
      v.unused s.fresh (omega arith),
      Counted-cong handles (replicate COUNT s.fresh ++ handles) s.fresh s.heap v.counted
          (v.unused s.fresh (omega arith)) (λ b other. ground (arith, more b)),
    );
    known = λ b live. ground (arith, more b, v.known b);
    unused = λ b le. ground (arith, v.unused b);
    few =
        omega
          (arith, length-append (replicate COUNT s.fresh) handles, length-replicate COUNT s.fresh);
  }
    where
      more :
          (b : ℕ)
          → count b (replicate COUNT s.fresh ++ handles)
            ≡ (if b == s.fresh then COUNT else 0) + count b handles
      more b =
          omega (
            arith,
            count-append b (replicate COUNT s.fresh) handles,
            count-replicate b COUNT s.fresh,
          )

      at_fresh : count s.fresh (replicate COUNT s.fresh ++ handles) ≡ COUNT
      at_fresh = ground (arith, more s.fresh, fresh_unused v)

  -- How the creation of a box ends: with the handles of a box over the slot `slot_id`, or because
  -- every slot is held.
  pub data Created (setter : D → D) (COUNT : ℕ) (handles outside : List ℕ) (s s' : Arcs D c)
      : Option (List ℕ) → Type 0 where
    made :
        (slot_id : ℕ)
        → deref c pool_size junk needs_drop s.fresh s' ≡ some slot_id
        → get_or s'.allocator.pool slot_id junk ≡ setter (get_or s.allocator.pool slot_id junk)
        → IsCounted c pool_size (replicate COUNT s.fresh ++ handles) outside s'
        → Created setter COUNT handles outside s s' (some (replicate COUNT s.fresh))
    full :
        length (slots s.heap ++ outside) ≡ pool_size
        → IsCounted c pool_size handles outside s'
        → Created setter COUNT handles outside s s' none

  deref_made :
      (COUNT i : ℕ) (s : Arcs D c) (p : Pool D c)
      → i < pool_size
      → deref c pool_size junk needs_drop s.fresh
          (from_allocated_with_clones c pool_size junk needs_drop COUNT i
            (record s { allocator = p })).1
        ≡ some i
  unfolding deref from_allocated_with_clones
  deref_made COUNT i s p lt =
      rw (self, deref) (ap some (ref_from_id_lem c pool_size junk needs_drop i lt))
    where
      self : (s.fresh == s.fresh) ≡ true
      self = (==_iff s.fresh s.fresh).1 refl

  value_made :
      (COUNT i : ℕ) (s : Arcs D c) (p : Pool D c) (x : D)
      → get_or p.pool i junk ≡ x
      → get_or
          (from_allocated_with_clones c pool_size junk needs_drop COUNT i
            (record s { allocator = p })).1.allocator.pool
          i
          junk
        ≡ x
  unfolding from_allocated_with_clones
  value_made COUNT i s p x e = e

  filled-IsSound :
      {held : List ℕ} (i : ℕ) (x : D) (p : Pool D c)
      → IsSound c pool_size held p
      → IsSound c pool_size held (record p { pool = set p.pool i x })
  filled-IsSound i x p w = record {
    ready = w.ready;
    shape = length-set p.pool i x ∙ w.shape;
    shared = w.shared;
  }

  -- `new_with_clones` makes a box with `COUNT` handles over a slot that nobody held, filled by the
  -- setter; it answers `None` only when every slot is held.
  pub new_with_clones-Created :
      {handles outside : List ℕ} (COUNT : ℕ) (setter : D → D) (s : Arcs D c)
      → IsCounted c pool_size handles outside s
      → 0 < COUNT
      → length handles + COUNT < 2 ^ 32
      → (o : Option (List ℕ)) × (s' : Arcs D c) × (new_with_clones c pool_size junk needs_drop COUNT
            setter s
          ≡ some (o, s'))
        × Created setter COUNT handles outside s s' o
  new_with_clones-Created {handles} {outside} COUNT setter s v pos lt =
      let (o, p, e, a, same, drops) =
        alloc_ref-Allocated c pool_size junk needs_drop s.allocator v.owned in
      go o p e a same
    where
      go :
          (o : Option (ℕ × ℕ)) (p : Pool D c)
          → Pool.alloc_ref c pool_size junk needs_drop s.allocator ≡ some (o, p)
          → Allocated c pool_size (slots s.heap ++ outside) p o
          → p.pool ≡ s.allocator.pool
          → (o : Option (List ℕ)) × (s' : Arcs D c) × (new_with_clones c pool_size junk needs_drop
                COUNT setter s
              ≡ some (o, s'))
            × Created setter COUNT handles outside s s' o
      go _ p e (exhausted h w) same = (
        none,
        record s { allocator = p },
        unfold new_with_clones in rw (e, ◌>>=◌, on_allocator),
        full h (record {
          owned = w;
          counted = v.counted;
          known = v.known;
          unused = v.unused;
          few = v.few;
        }),
      )
      go _ p e (got i below new w) same =
          let made_box =
            from_allocated_with_clones c pool_size junk needs_drop COUNT i
              (record s { allocator = filled }) in
          (
            some (replicate COUNT s.fresh),
            made_box.1,
            unfold new_with_clones from_allocated_with_clones in rw (e, ◌>>=◌, on_allocator),
            made i (deref_made COUNT i s filled below)
                (value_made COUNT i s filled (setter (get_or p.pool i junk))
                    (get_or-set_self p.pool i _ junk (rw w.shape below))
                  ∙ ap (λ l. setter (get_or l i junk)) same)
                (unfold from_allocated_with_clones in
                  from_allocated_with_clones-IsCounted COUNT i s filled v (filled-IsSound i _ p w)
                    pos lt),
          )
        where
          filled : Pool D c
          filled = record p { pool = set p.pool i (setter (get_or p.pool i junk)) }

  -- `new_with` makes a box with one handle.
  pub new_with-Created :
      {handles outside : List ℕ} (setter : D → D) (s : Arcs D c)
      → IsCounted c pool_size handles outside s
      → length handles + 1 < 2 ^ 32
      → (o : Option (List ℕ)) × (s' : Arcs D c) × (new_with c pool_size junk needs_drop setter s
          ≡ some ((elim o [ none ↦ none | some l ↦ some (get_or l 0 0) ]), s'))
        × Created setter 1 handles outside s s' o
  unfolding new_with
  new_with-Created setter s v lt =
      let (o, s', e, box) = new_with_clones-Created 1 setter s v (omega arith) lt in
      (o, s', rw (e, ◌>>=◌), box)

  -- How `new` ends: with a handle and the reference of the slot that it leads to.
  pub data NewHandle (handles outside : List ℕ) (s s' : Arcs D c) : Option (ℕ × ℕ) → Type 0 where
    handed :
        (slot_id : ℕ)
        → deref c pool_size junk needs_drop s.fresh s' ≡ some slot_id
        → s'.allocator.pool ≡ s.allocator.pool
        → IsCounted c pool_size (s.fresh ∷ handles) outside s'
        → NewHandle handles outside s s' (some (s.fresh, slot_id))
    refused :
        length (slots s.heap ++ outside) ≡ pool_size
        → IsCounted c pool_size handles outside s'
        → NewHandle handles outside s s' none

  -- `new` makes a box with one handle over a slot that nobody held, and leaves the slot's value to the
  -- caller; it answers `None` only when every slot is held.
  pub new-NewHandle :
      {handles outside : List ℕ} (s : Arcs D c)
      → IsCounted c pool_size handles outside s
      → length handles + 1 < 2 ^ 32
      → (o : Option (ℕ × ℕ)) × (s' : Arcs D c) × (new c pool_size junk needs_drop s ≡ some (o, s'))
        × NewHandle handles outside s s' o
  new-NewHandle {handles} {outside} s v lt =
      let (o, p, e, a, same, drops) =
        alloc_ref-Allocated c pool_size junk needs_drop s.allocator v.owned in
      go o p e a same
    where
      go :
          (o : Option (ℕ × ℕ)) (p : Pool D c)
          → Pool.alloc_ref c pool_size junk needs_drop s.allocator ≡ some (o, p)
          → Allocated c pool_size (slots s.heap ++ outside) p o
          → p.pool ≡ s.allocator.pool
          → (o : Option (ℕ × ℕ)) × (s' : Arcs D c) × (new c pool_size junk needs_drop s
              ≡ some (o, s'))
            × NewHandle handles outside s s' o
      go _ p e (exhausted h w) same = (
        none,
        record s { allocator = p },
        unfold new in rw (e, ◌>>=◌, on_allocator),
        refused h (record {
          owned = w;
          counted = v.counted;
          known = v.known;
          unused = v.unused;
          few = v.few;
        }),
      )
      go _ p e (got i below free_before w) same = (
        some (s.fresh, i),
        (from_allocated_with_clones c pool_size junk needs_drop 1 i (record s { allocator = p })).1,
        unfold new from_allocated_with_clones in rw (e, ◌>>=◌, on_allocator),
        handed i (deref_made 1 i s p below) (unfold from_allocated_with_clones in same) (
            unfold from_allocated_with_clones in
            from_allocated_with_clones-IsCounted 1 i s p v w (omega arith) lt),
      )

  -- `from_allocated` over a slot that another owner held takes the slot over.
  pub from_allocated-handle :
      {handles outside : List ℕ} (slot_id : ℕ) (s : Arcs D c)
      → slot_id < pool_size
      → IsCounted c pool_size handles (slot_id ∷ outside) s
      → length handles + 1 < 2 ^ 32
      → (s' : Arcs D c) × (from_allocated c pool_size junk needs_drop slot_id s ≡ (s.fresh, s'))
        × IsCounted c pool_size (s.fresh ∷ handles) outside s'
        × (deref c pool_size junk needs_drop s.fresh s' ≡ some slot_id)
        × (s'.allocator ≡ s.allocator)
  from_allocated-handle {handles} {outside} slot_id s lt v few = (
    (from_allocated_with_clones c pool_size junk needs_drop 1 slot_id s).1,
    unfold from_allocated in refl,
    unfold from_allocated_with_clones in
        from_allocated_with_clones-IsCounted 1 slot_id s s.allocator v
          (IsSound-cong c pool_size {held = slots s.heap ++ slot_id ∷ outside} same_slots v.owned)
          (omega arith) few,
    deref_made 1 slot_id s s.allocator lt,
    unfold from_allocated_with_clones in refl,
  )
    where
      same_slots :
          (i : ℕ)
          → count i (slots s.heap ++ slot_id ∷ outside)
            ≡ count i (slot_id ∷ slots s.heap ++ outside)
      same_slots i = omega (
        arith,
        count-append i (slots s.heap) (slot_id ∷ outside),
        count-append i (slots s.heap) outside,
      )
