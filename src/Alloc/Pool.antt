-- ===== src/Alloc/Pool.antt =====
-- OgreArrayPoolAllocator of src/ogre_std/ogre_alloc/ogre_array_pool_allocator.rs. A reference to a
-- slot is the slot's offset in the pool.
pub mod Ownership
pub mod Values
use reactive_mutiny.Common.{
  ℕ, ◌%◌, ◌^◌, Bool, Option, none, some, List, [], ◌∷◌, ◌++◌, get_or, set, replicate, up_from,
  if◌then◌else◌, Run, ◌>>=◌,
}
use reactive_mutiny.Container.{MoveContainer}

-- `drops` records the values whose destructor ran, in order.
pub record Pool (D : Type 0) (c : MoveContainer ℕ) : Type 0 where
  pub pool : List D
  pub free_list : c.State
  pub drops : List D

-- `junk` is what the pool's bytes stand for before a slot is first written; `needs_drop` is
-- `std::mem::needs_drop::<DataType>()`.
module _ {D : Type 0} (c : MoveContainer ℕ) (pool_size : ℕ) (junk : D) (needs_drop : Bool) where
  -- The loop of `new` over the slot ids; what `publish_movable` answers is not looked at.
  publish_all : List ℕ → Run c.State (Unit {0})
  publish_all [] = λ fl. some (tt, fl)
  publish_all (slot_id ∷ ids) = do _ ← c.publish_movable slot_id; publish_all ids

  pub new : Option (Pool D c)
  unfolding publish_all
  new = elim (publish_all (up_from (pool_size % 2 ^ 32) 0) c.new) [
    | none ↦ none
    | some (_, fl) ↦ some (record { pool = replicate pool_size junk; free_list = fl; drops = [] })
  ]

  -- The reference and the id of a free slot.
  pub alloc_ref : Run (Pool D c) (Option (ℕ × ℕ))
  alloc_ref s = elim (c.consume_movable s.free_list) [
    | none ↦ none
    | some (none, fl) ↦ some (none, record s { free_list = fl })
    | some (some slot_id, fl) ↦ some (some (slot_id, slot_id), record s { free_list = fl })
  ]

  pub alloc_with : (D → D) → Run (Pool D c) (Option (ℕ × ℕ))
  alloc_with setter = do
    slot ← alloc_ref
    λ s. elim slot [
      | none ↦ some (none, s)
      | some (ref, slot_id) ↦ some (
        some (ref, slot_id),
        record s { pool = set s.pool ref (setter (get_or s.pool ref junk)) },
      )
    ]

  -- The future that `setter` returns is awaited: a computation on the allocator's state.
  pub alloc_with_async : (ℕ → ℕ → Run (Pool D c) (ℕ × ℕ)) → Run (Pool D c) (Option (ℕ × ℕ))
  alloc_with_async setter = do
    slot ← alloc_ref
    elim slot [
      | none ↦ λ s. some (none, s)
      | some (ref, slot_id) ↦ setter ref slot_id >>= λ filled s. some (some filled, s)
    ]

  pub id_from_ref : ℕ → ℕ
  id_from_ref ref = ref % 2 ^ 32

  pub ref_from_id : ℕ → ℕ
  ref_from_id slot_id = slot_id % pool_size

  pub dealloc_id : ℕ → Run (Pool D c) (Unit {0})
  dealloc_id slot_id s =
      let drops = (if needs_drop then s.drops ++ (get_or s.pool slot_id junk ∷ []) else s.drops) in
      elim (c.publish_movable slot_id s.free_list) [
        | none ↦ none
        | some (_, fl) ↦ some (tt, record s { free_list = fl; drops = drops })
      ]

  pub dealloc_ref : ℕ → Run (Pool D c) (Unit {0})
  dealloc_ref ref = dealloc_id (id_from_ref ref)
