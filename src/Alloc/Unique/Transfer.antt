-- ===== src/Alloc/Unique/Transfer.antt =====
-- OgreUnique: its creation, its drop, and its conversion to an OgreArc.
use reactive_mutiny.Common.{
  ℕ, ◌+◌, ◌^◌, ◌<◌, ◌≤◌, ◌≡◌, ◌∙◌, Bool, Option, none, some, List, [], ◌∷◌, ◌++◌, length, count,
  remove, get_or, if◌then◌else◌, ◌>>=◌,
}
use reactive_mutiny.Container.{MoveContainer}
use reactive_mutiny.Alloc.Pool
use reactive_mutiny.Alloc.Pool.{Pool}
use reactive_mutiny.Alloc.Pool.Ownership.{IsSound, Allocated, got, exhausted, dealloc_id-IsSound}
use reactive_mutiny.Alloc.Pool.Values.{
  Filled, alloc_with-Filled, ref_from_id_lem, id_from_ref-ref_from_id, dealloc_ref-ref_from_id,
}
use reactive_mutiny.Alloc.Arc.{Arcs, deref}
use reactive_mutiny.Alloc.Arc.Counting.{IsCounted}
use reactive_mutiny.Alloc.Arc.Create.{from_allocated-handle}
use reactive_mutiny.Alloc.Unique.{OgreUnique, from_allocated_id, new, into_ogre_arc, drop}

module _ {D : Type 0} (c : MoveContainer ℕ) (pool_size : ℕ) (junk : D) (needs_drop : Bool) where
  -- How the creation of a unique owner ends.
  pub data Owned (setter : D → D) (held : List ℕ) (s s' : Pool D c)
      : Option OgreUnique → Type 0 where
    owner :
        (slot_id : ℕ)
        → slot_id < pool_size
        → count slot_id held ≡ 0
        → IsSound c pool_size (slot_id ∷ held) s'
        → get_or s'.pool slot_id junk ≡ setter (get_or s.pool slot_id junk)
        → Owned setter held s s' (some (from_allocated_id c pool_size junk needs_drop slot_id))
    refused : length held ≡ pool_size → IsSound c pool_size held s' → Owned setter held s s' none

  -- `new` takes a slot that nobody held and fills it; it answers `None` only when every slot is held.
  pub new-Owned :
      {held : List ℕ} (setter : D → D) (s : Pool D c)
      → IsSound c pool_size held s
      → (o : Option OgreUnique) × (s' : Pool D c) × (new c pool_size junk needs_drop setter s
          ≡ some (o, s'))
        × Owned setter held s s' o
  new-Owned {held} setter s v =
      let (o, s', e, a, filled) = alloc_with-Filled c pool_size junk needs_drop setter s v in
      go o s' e a filled
    where
      go :
          (o : Option (ℕ × ℕ)) (s' : Pool D c)
          → Pool.alloc_with c pool_size junk needs_drop setter s ≡ some (o, s')
          → Allocated c pool_size held s' o
          → Filled c pool_size junk needs_drop setter s s' o
          → (o : Option OgreUnique) × (s' : Pool D c) × (new c pool_size junk needs_drop setter s
              ≡ some (o, s'))
            × Owned setter held s s' o
      go _ s' e (exhausted h w) filled = (none, s', unfold new in rw (e, ◌>>=◌), refused h w)
      go _ s' e (got i lt free w) filled = (
        some (from_allocated_id c pool_size junk needs_drop i),
        s',
        unfold new from_allocated_id in
            rw (e, ◌>>=◌, ref_from_id_lem c pool_size junk needs_drop i lt),
        owner i lt free w filled.0,
      )

  -- Dropping the owner of a held slot frees exactly that slot.
  pub drop-IsSound :
      {held : List ℕ} (slot_id : ℕ) (s : Pool D c)
      → pool_size ≤ c.max_size
      → pool_size < 2 ^ 32
      → slot_id < pool_size
      → IsSound c pool_size held s
      → 0 < count slot_id held
      → (s' : Pool D c) × (drop c pool_size junk needs_drop
            (from_allocated_id c pool_size junk needs_drop slot_id)
            s
          ≡ some (tt, s'))
        × IsSound c pool_size (remove slot_id held) s'
        × (s'.drops
            ≡ (if needs_drop then s.drops ++ (get_or s.pool slot_id junk ∷ []) else s.drops))
  unfolding drop from_allocated_id
  drop-IsSound slot_id s fits word lt v has =
      let (s', e, w, same, ran) =
        dealloc_id-IsSound c pool_size junk needs_drop slot_id s fits v has in
      (s', dealloc_ref-ref_from_id c pool_size junk needs_drop slot_id s lt word ∙ e, w, ran)

  -- `into_ogre_arc` hands the slot over to a new counted handle that leads to the same slot: it is
  -- neither freed nor dropped.
  pub into_ogre_arc-IsCounted :
      {handles outside : List ℕ} (slot_id : ℕ) (s : Arcs D c)
      → pool_size < 2 ^ 32
      → slot_id < pool_size
      → IsCounted c pool_size handles (slot_id ∷ outside) s
      → length handles + 1 < 2 ^ 32
      → (s' : Arcs D c) × (into_ogre_arc c pool_size junk needs_drop
            (from_allocated_id c pool_size junk needs_drop slot_id)
            s
          ≡ (s.fresh, s'))
        × IsCounted c pool_size (s.fresh ∷ handles) outside s'
        × (deref c pool_size junk needs_drop s.fresh s' ≡ some slot_id)
        × (s'.allocator ≡ s.allocator)
  unfolding into_ogre_arc from_allocated_id
  into_ogre_arc-IsCounted {handles} {outside} slot_id s word lt v few =
      rw (id_from_ref-ref_from_id c pool_size junk needs_drop slot_id lt word)
        (from_allocated-handle c pool_size junk needs_drop slot_id s lt v few)
