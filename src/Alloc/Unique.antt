-- ===== src/Alloc/Unique.antt =====
-- OgreUnique of src/ogre_std/ogre_alloc/ogre_unique.rs: the only owner of a slot.
pub mod Transfer
use reactive_mutiny.Common.{ℕ, Bool, Option, none, some, Run, ◌>>=◌}
use reactive_mutiny.Container.{MoveContainer}
use reactive_mutiny.Alloc.Pool
use reactive_mutiny.Alloc.Pool.{Pool}
use reactive_mutiny.Alloc.Arc
use reactive_mutiny.Alloc.Arc.{Arcs}

pub record OgreUnique : Type 0 where
  pub data_ref : ℕ

module _ {D : Type 0} (c : MoveContainer ℕ) (pool_size : ℕ) (junk : D) (needs_drop : Bool) where
  pub from_allocated_ref : ℕ → OgreUnique
  from_allocated_ref data_ref = record { data_ref = data_ref }

  pub new : (D → D) → Run (Pool D c) (Option OgreUnique)
  unfolding from_allocated_ref
  new setter = do
    slot ← Pool.alloc_with c pool_size junk needs_drop setter
    λ s.
        some
          ((elim slot [ none ↦ none | some (slot_ref, _) ↦ some (from_allocated_ref slot_ref) ]), s)

  pub from_allocated_id : ℕ → OgreUnique
  unfolding from_allocated_ref
  from_allocated_id data_id =
      from_allocated_ref (Pool.ref_from_id c pool_size junk needs_drop data_id)

  -- The unique owner is not dropped: its slot goes to the counted handle.
  pub into_ogre_arc : OgreUnique → Arcs D c → ℕ × Arcs D c
  into_ogre_arc u =
      Arc.from_allocated c pool_size junk needs_drop
        (Pool.id_from_ref c pool_size junk needs_drop u.data_ref)

  pub drop : OgreUnique → Run (Pool D c) (Unit {0})
  drop u = Pool.dealloc_ref c pool_size junk needs_drop u.data_ref
