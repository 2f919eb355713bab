-- ===== src/Alloc/Arc.antt =====
-- OgreArc of src/ogre_std/ogre_alloc/ogre_arc.rs: counted references to a slot of one allocator. The
-- counter and the slot's id stand in a box of their own on the heap; a handle is the box's address.
-- A read through a handle whose box was freed has the result `none`.
pub mod Boxes
pub mod Counting
pub mod Drops
pub mod Create
use reactive_mutiny.Common.{
  ℕ, ◌+◌, ◌%◌, ◌^◌, Bool, true, false, Option, none, some, List, [], ◌∷◌, get_or, set, replicate,
  add_u32, sub_u32, ◌==◌, if◌then◌else◌, Run, ◌>>=◌,
}
use reactive_mutiny.Container.{MoveContainer}
use reactive_mutiny.Alloc.Pool
use reactive_mutiny.Alloc.Pool.{Pool}

-- `InnerOgreArc`, without its reference to the allocator.
pub record Inner : Type 0 where
  pub data_id : ℕ
  pub references_count : ℕ

abbrev pub Heap : Type 0
Heap = List (ℕ × Inner)

abbrev pub find : ℕ → Heap → Option Inner
find a [] = none
find a ((b, inner) ∷ h) = if a == b then some inner else find a h

-- Write a box's counter.
abbrev pub set_count : ℕ → ℕ → Heap → Heap
set_count a n [] = []
set_count a n ((b, inner) ∷ h) =
    if a == b then (b, record inner { references_count = n }) ∷ h else (b, inner) ∷ set_count a n h

abbrev pub free : ℕ → Heap → Heap
free a [] = []
free a ((b, inner) ∷ h) = if a == b then h else (b, inner) ∷ free a h

-- `fresh` is the address that the next box gets.
pub record Arcs (D : Type 0) (c : MoveContainer ℕ) : Type 0 where
  pub allocator : Pool D c
  pub heap : Heap
  pub fresh : ℕ

module _ {D : Type 0} (c : MoveContainer ℕ) (pool_size : ℕ) (junk : D) (needs_drop : Bool) where
  -- An allocator's method, called through the handles' state.
  on_allocator : {X : Type 0} → Run (Pool D c) X → Run (Arcs D c) X
  on_allocator m s = elim (m s.allocator) [
    | none ↦ none
    | some (x, p) ↦ some (x, record s { allocator = p })
  ]

  pub from_allocated_with_clones : ℕ → ℕ → Arcs D c → List ℕ × Arcs D c
  from_allocated_with_clones COUNT data_id s = (
    replicate COUNT s.fresh,
    record s {
      heap = (s.fresh, record { data_id = data_id; references_count = COUNT % 2 ^ 32 }) ∷ s.heap;
      fresh = s.fresh + 1;
    },
  )

  pub from_allocated : ℕ → Arcs D c → ℕ × Arcs D c
  unfolding from_allocated_with_clones
  from_allocated data_id s =
      let (arcs, s') = from_allocated_with_clones 1 data_id s in (get_or arcs 0 0, s')

  -- A handle to an uninitialised slot, and the slot's reference.
  pub new : Run (Arcs D c) (Option (ℕ × ℕ))
  unfolding on_allocator from_allocated
  new = do
    slot ← on_allocator (Pool.alloc_ref c pool_size junk needs_drop)
    λ s. elim slot [
      | none ↦ some (none, s)
      | some (reference, data_id) ↦
          let (arc, s') = from_allocated data_id s in some (some (arc, reference), s')
    ]

  pub new_with_clones : ℕ → (D → D) → Run (Arcs D c) (Option (List ℕ))
  unfolding on_allocator from_allocated_with_clones
  new_with_clones COUNT setter = do
    slot ← on_allocator (Pool.alloc_ref c pool_size junk needs_drop)
    λ s. elim slot [
      | none ↦ some (none, s)
      | some (slot_ref, slot_id) ↦
          let pool = s.allocator.pool in
          let filled = set pool slot_ref (setter (get_or pool slot_ref junk)) in
          let (arcs, s') =
            from_allocated_with_clones COUNT slot_id
              (record s { allocator = record (s.allocator) { pool = filled } }) in
          some (some arcs, s')
    ]

  pub new_with : (D → D) → Run (Arcs D c) (Option ℕ)
  unfolding new_with_clones
  new_with setter = do
    arcs ← new_with_clones 1 setter
    λ s. some ((elim arcs [ none ↦ none | some l ↦ some (get_or l 0 0) ]), s)

  pub increment_references : ℕ → ℕ → Run (Arcs D c) ℕ
  increment_references arc n s = elim (find arc s.heap) [
    | none ↦ none
    | some inner ↦
        some (arc, record s { heap = set_count arc (add_u32 inner.references_count n) s.heap })
  ]

  abbrev pub raw_copy : ℕ → ℕ
  raw_copy arc = arc

  pub clone : ℕ → Run (Arcs D c) ℕ
  clone arc s = elim (find arc s.heap) [
    | none ↦ none
    | some inner ↦
        some (arc, record s { heap = set_count arc (add_u32 inner.references_count 1) s.heap })
  ]

  pub references_count : ℕ → Arcs D c → Option ℕ
  references_count arc s = elim (find arc s.heap) [
    | none ↦ none
    | some inner ↦ some inner.references_count
  ]

  -- The slot that `deref`, `deref_mut`, `as_ref` and `borrow` lead to.
  pub deref : ℕ → Arcs D c → Option ℕ
  deref arc s = elim (find arc s.heap) [
    | none ↦ none
    | some inner ↦ some (Pool.ref_from_id c pool_size junk needs_drop inner.data_id)
  ]

  -- `Drop`: the last handle frees the slot and the box.
  pub drop : ℕ → Run (Arcs D c) (Unit {0})
  unfolding on_allocator
  drop arc s = elim (find arc s.heap) [
    | none ↦ none
    | some inner ↦
        let references = inner.references_count in
        let counted = record s { heap = set_count arc (sub_u32 references 1) s.heap } in
        let freed : Option (Unit {0} × Arcs D c) =
          elim (on_allocator (Pool.dealloc_id c pool_size junk needs_drop inner.data_id) counted) [
            | none ↦ none
            | some (_, s') ↦ some (tt, record s' { heap = free arc s'.heap })
          ] in
        if references == 1 then freed else some (tt, counted)
  ]
