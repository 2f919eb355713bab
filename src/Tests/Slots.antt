-- ===== src/Tests/Slots.antt =====
-- The pool of four slots, its counted handles and its unique owners, on concrete states.
use reactive_mutiny.Common.{
  ℕ, ◌+◌, ◌≡◌, refl, true, false, Option, none, some, List, [], ◌∷◌, ◌++◌, arith, remove, get_or,
  IsShared, if◌then◌else◌,
}
use reactive_mutiny.Container.{MoveContainer}
use reactive_mutiny.FullSync.Move.Container.{full_sync_move}
use reactive_mutiny.FullSync.Move.{FullSyncMove}
use reactive_mutiny.FullSync.Move.Refine.{IsReady}
use reactive_mutiny.Alloc.Pool
use reactive_mutiny.Alloc.Pool.{Pool}
use reactive_mutiny.Alloc.Pool.Ownership.{
  IsSound, Allocated, alloc_ref-Allocated, dealloc_id-IsSound,
}
use reactive_mutiny.Alloc.Arc
use reactive_mutiny.Alloc.Arc.{Inner, Arcs, find}
use reactive_mutiny.Alloc.Arc.Counting.{IsCounted}
use reactive_mutiny.Alloc.Arc.Drops.{drop_last}
use reactive_mutiny.Alloc.Arc.Create.{Created, new_with_clones-Created}
use reactive_mutiny.Alloc.Unique
use reactive_mutiny.Alloc.Unique.{OgreUnique}
use reactive_mutiny.Alloc.Unique.Transfer.{into_ogre_arc-IsCounted}
use reactive_mutiny.Tests.Queues.{four}

abbrev pub ids : MoveContainer ℕ
ids = full_sync_move 0 4 four

-- The slots 2 and 3 are free.
abbrev pub two_free : FullSyncMove ℕ
two_free = record { head = 2; tail = 4; concurrency_guard = false; buffer = 0 ∷ 1 ∷ 2 ∷ 3 ∷ [] }

pub two_free-IsReady : IsReady 4 two_free
two_free-IsReady = record {
  free = refl;
  shape = refl;
  head_word = omega arith;
  tail_word = omega arith;
  bounded = omega arith;
}

abbrev pub pool : Pool ℕ ids
pool = record { pool = 70 ∷ 71 ∷ 72 ∷ 73 ∷ []; free_list = two_free; drops = [] }

abbrev pub held : List ℕ
held = 0 ∷ 1 ∷ []

pub held-IsShared : IsShared 4 (2 ∷ 3 ∷ []) held
held-IsShared i = ground arith

pub pool-IsSound : IsSound ids 4 held pool
pool-IsSound = record { ready = two_free-IsReady; shape = refl; shared = held-IsShared }

alloc_ref-Allocated_example :
    (o : Option (ℕ × ℕ)) × (s' : Pool ℕ ids) × (Pool.alloc_ref ids 4 0 true pool ≡ some (o, s'))
    × Allocated ids 4 held s' o
    × (s'.pool ≡ pool.pool)
    × (s'.drops ≡ [])
alloc_ref-Allocated_example = alloc_ref-Allocated ids 4 0 true {held = held} pool pool-IsSound

dealloc_id-IsSound_example :
    (s' : Pool ℕ ids) × (Pool.dealloc_id ids 4 0 true 1 pool ≡ some (tt, s'))
    × IsSound ids 4 (remove 1 held) s'
    × (s'.pool ≡ pool.pool)
    × (s'.drops ≡ 71 ∷ [])
dealloc_id-IsSound_example =
    dealloc_id-IsSound ids 4 0 true {held = held} 1 pool (omega arith) pool-IsSound (omega arith)

-- Two handles to a box at the address 0, over the slot 0, and one to a box at the address 1, over
-- the slot 1.
abbrev pub arcs : Arcs ℕ ids
arcs = record {
  allocator = pool;
  heap =
      (1, record { data_id = 1; references_count = 1 })
      ∷ (0, record { data_id = 0; references_count = 2 })
      ∷ [];
  fresh = 2;
}

abbrev pub handles : List ℕ
handles = 0 ∷ 1 ∷ 0 ∷ []

pub arcs-IsCounted : IsCounted ids 4 handles [] arcs
arcs-IsCounted = record {
  owned = record { ready = two_free-IsReady; shape = refl; shared = λ i. ground arith };
  counted = (refl, omega arith, refl, (refl, omega arith, refl, tt));
  known = λ a live. ground arith;
  unused = λ a le. ground arith;
  few = omega arith;
}

drop_last_example :
    (inner : Inner) × (s' : Arcs ℕ ids) × (find 1 arcs.heap ≡ some inner)
    × (Arc.drop ids 4 0 true 1 arcs ≡ some (tt, s'))
    × IsCounted ids 4 (remove 1 handles) [] s'
    × (find 1 s'.heap ≡ none)
    × (s'.allocator.drops
        ≡ (if true then pool.drops ++ (get_or pool.pool inner.data_id 0 ∷ []) else pool.drops))
drop_last_example =
    drop_last ids 4 0 true {handles = handles} {outside = []} {s = arcs} 1 arcs-IsCounted
      (omega arith) (omega arith)

new_with_clones-Created_example :
    (o : Option (List ℕ)) × (s' : Arcs ℕ ids) × (Arc.new_with_clones ids 4 0 true 2
        (λ x. x + 100)
        arcs
      ≡ some (o, s'))
    × Created ids 4 0 true (λ x. x + 100) 2 handles [] arcs s' o
new_with_clones-Created_example =
    new_with_clones-Created ids 4 0 true {handles = handles} {outside = []} 2 (λ x. x + 100) arcs
      arcs-IsCounted (omega arith) (omega arith)

-- The slot 1 belongs to a unique owner, and the slot 0 to two handles.
abbrev mixed : Arcs ℕ ids
mixed = record arcs { heap = (0, record { data_id = 0; references_count = 2 }) ∷ [] }

abbrev mixed_handles : List ℕ
mixed_handles = 0 ∷ 0 ∷ []

mixed-IsCounted : IsCounted ids 4 mixed_handles (1 ∷ []) mixed
mixed-IsCounted = record {
  owned = pool-IsSound;
  counted = (refl, omega arith, refl, tt);
  known = λ a live. ground arith;
  unused = λ a le. ground arith;
  few = omega arith;
}

into_ogre_arc-IsCounted_example :
    (s' : Arcs ℕ ids) × (Unique.into_ogre_arc ids 4 0 true
        (Unique.from_allocated_id {D = ℕ} ids 4 0 true 1)
        mixed
      ≡ (2, s'))
    × IsCounted ids 4 (2 ∷ mixed_handles) [] s'
    × (Arc.deref ids 4 0 true 2 s' ≡ some 1)
    × (s'.allocator ≡ pool)
into_ogre_arc-IsCounted_example =
    into_ogre_arc-IsCounted ids 4 0 true {handles = mixed_handles} {outside = []} 1 mixed
      (omega arith) (omega arith) mixed-IsCounted (omega arith)
