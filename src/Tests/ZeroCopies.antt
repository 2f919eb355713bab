-- ===== src/Tests/ZeroCopies.antt =====
-- A zero-copy queue over four slots: the slots 0 and 1 hold elements, and 2 and 3 are free.
use reactive_mutiny.Common.{
  ℕ, ◌+◌, ◌≡◌, refl, true, false, none, some, [], ◌∷◌, ◌++◌, arith, length, if◌then◌else◌,
}
use reactive_mutiny.Fifo
use reactive_mutiny.FullSync.Move.{FullSyncMove}
use reactive_mutiny.FullSync.Move.Refine.{IsReady}
use reactive_mutiny.ZeroCopy
use reactive_mutiny.ZeroCopy.{ZeroCopy}
use reactive_mutiny.ZeroCopy.Stock.{IsStocked, contents}
use reactive_mutiny.ZeroCopy.Queue.{zero_copy_publish_refines, zero_copy_consume_refines}
use reactive_mutiny.Tests.Slots.{ids, pool, pool-IsSound}

-- The ids 0 and 1.
abbrev pub both : FullSyncMove ℕ
both = record { head = 0; tail = 2; concurrency_guard = false; buffer = 0 ∷ 1 ∷ 0 ∷ 0 ∷ [] }

pub both-IsReady : IsReady 4 both
both-IsReady = record {
  free = refl;
  shape = refl;
  head_word = omega arith;
  tail_word = omega arith;
  bounded = omega arith;
}

abbrev pub stocked : ZeroCopy ℕ ids ids
stocked = record { allocator = pool; queue = both }

pub stocked-IsStocked : IsStocked ids ids 4 [] stocked
stocked-IsStocked = record { ready = both-IsReady; owned = pool-IsSound }

contents-stocked : contents ids ids 4 0 stocked ≡ 70 ∷ 71 ∷ []
contents-stocked = refl

zero_copy_publish_refines_example :
    (s' : ZeroCopy ℕ ids ids) × (ZeroCopy.publish_movable ids ids 4 0 true 99 stocked
      ≡ some ((Fifo.publish 4 99 (contents ids ids 4 0 stocked)).0, s'))
    × (contents ids ids 4 0 s' ≡ (Fifo.publish 4 99 (contents ids ids 4 0 stocked)).1)
    × IsStocked ids ids 4 [] s'
zero_copy_publish_refines_example =
    zero_copy_publish_refines ids ids 4 0 true 99 stocked (omega arith) stocked-IsStocked

zero_copy_consume_refines_example :
    (s' : ZeroCopy ℕ ids ids) × (ZeroCopy.consume ids ids 4 0 true {X = ℕ} (λ x. x + 1) stocked
      ≡ some (
        (elim (Fifo.consume (contents ids ids 4 0 stocked)).0 [
          | none ↦ none
          | some x ↦ some (x + 1, length (contents ids ids 4 0 s'))
        ]),
        s',
      ))
    × (contents ids ids 4 0 s' ≡ (Fifo.consume (contents ids ids 4 0 stocked)).1)
    × IsStocked ids ids 4 [] s'
    × (s'.allocator.drops ≡ (elim (Fifo.consume (contents ids ids 4 0 stocked)).0 [
      | none ↦ stocked.allocator.drops
      | some x ↦ if true then stocked.allocator.drops ++ (x ∷ []) else stocked.allocator.drops
    ]))
zero_copy_consume_refines_example =
    zero_copy_consume_refines ids ids 4 0 true {X = ℕ} (λ x. x + 1) stocked (omega arith)
      stocked-IsStocked

-- The slot 1 is reserved, and not published.
abbrev leaking : ZeroCopy ℕ ids ids
leaking = record { allocator = pool; queue = record both { tail = 1 } }

leaking-IsStocked : IsStocked ids ids 4 (1 ∷ []) leaking
leaking-IsStocked = record {
  ready = record {
    free = refl;
    shape = refl;
    head_word = omega arith;
    tail_word = omega arith;
    bounded = omega arith;
  };
  owned = pool-IsSound;
}
