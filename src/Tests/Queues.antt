-- ===== src/Tests/Queues.antt =====
-- FullSyncMove on concrete queues of four slots.
use reactive_mutiny.Common.{
  ℕ, ◌+◌, ◌-◌, ◌^◌, ◌≡◌, refl, true, false, Option, none, some, List, [], ◌∷◌, arith, IsRingSize,
}
use reactive_mutiny.Fifo
use reactive_mutiny.Container.Sequences.{Op, publish, consume, published, consumed, fifo_run}
use reactive_mutiny.FullSync.Move
use reactive_mutiny.FullSync.Move.{FullSyncMove, Leaked}
use reactive_mutiny.FullSync.Move.Refine.{IsReady, contents, publish_refines, consume_refines}
use reactive_mutiny.FullSync.Move.Retry.{Settled, turn, publish_settles}
use reactive_mutiny.FullSync.Move.Lifecycle.{drop_all-contents, unleak_internal_loses}

pub four : IsRingSize 4
four = record { log2 = 2; power = refl; small = omega arith }

-- 10, then 20, round the end of the buffer and of the word.
abbrev pub wrapped : FullSyncMove ℕ
wrapped = record {
  head = 2 ^ 32 - 1;
  tail = 1;
  concurrency_guard = false;
  buffer = 20 ∷ 30 ∷ 40 ∷ 10 ∷ [];
}

abbrev taken : FullSyncMove ℕ
taken = record wrapped { concurrency_guard = true }

abbrev full : FullSyncMove ℕ
full = record { head = 0; tail = 4; concurrency_guard = false; buffer = 1 ∷ 2 ∷ 3 ∷ 4 ∷ [] }

pub wrapped-IsReady : IsReady 4 wrapped
wrapped-IsReady = record {
  free = refl;
  shape = refl;
  head_word = omega arith;
  tail_word = omega arith;
  bounded = omega arith;
}

full-IsReady : IsReady 4 full
full-IsReady = record {
  free = refl;
  shape = refl;
  head_word = omega arith;
  tail_word = omega arith;
  bounded = omega arith;
}

contents-wrapped : contents 0 4 wrapped ≡ 10 ∷ 20 ∷ []
contents-wrapped = refl

publish_refines_example :
    (r' : FullSyncMove ℕ) × (Move.publish_movable 0 4 50 wrapped
      ≡ some ((Fifo.publish 4 50 (contents 0 4 wrapped)).0, r'))
    × (contents 0 4 r' ≡ (Fifo.publish 4 50 (contents 0 4 wrapped)).1)
    × IsReady 4 r'
publish_refines_example = publish_refines 0 4 four 50 wrapped wrapped-IsReady

consume_refines_example :
    (r' : FullSyncMove ℕ) × (Move.consume_movable 0 4 wrapped
      ≡ some ((Fifo.consume (contents 0 4 wrapped)).0, r'))
    × (contents 0 4 r' ≡ (Fifo.consume (contents 0 4 wrapped)).1)
    × IsReady 4 r'
consume_refines_example = consume_refines 0 4 four wrapped wrapped-IsReady

abbrev script : List (Op ℕ)
script = publish 50 ∷ consume ∷ consume ∷ publish 60 ∷ consume ∷ consume ∷ consume ∷ []

fifo_run-script : fifo_run 4 script (10 ∷ 20 ∷ []) ≡ (
  published (some 3, none)
      ∷ consumed (some 10)
      ∷ consumed (some 20)
      ∷ published (some 2, none)
      ∷ consumed (some 50)
      ∷ consumed (some 60)
      ∷ consumed none
      ∷ [],
  [],
)
unfolding fifo_run Fifo.publish Fifo.consume
fifo_run-script = refl

-- Between two rounds another thread empties the queue.
abbrev emptied : FullSyncMove ℕ → FullSyncMove ℕ
emptied r = record r { head = r.tail }

emptied-IsReady : (r : FullSyncMove ℕ) → IsReady 4 r → IsReady 4 (emptied r)
emptied-IsReady r v = ground arith

publish_settles_example :
    (out : Option (ℕ → ℕ) × Option ℕ) × (r' : FullSyncMove ℕ) × (Move.publish 0 4
        (λ x. x + 5)
        (emptied ∷ [])
        full
      ≡ some (out, r'))
    × Settled 0 4 (λ x. x + 5) (turn 0 4 (emptied ∷ []) full) out r'
    × IsReady 4 r'
publish_settles_example =
    publish_settles 0 4 four (λ x. x + 5) (emptied ∷ []) full (emptied-IsReady, tt) full-IsReady

drop_all-contents_example : Move.drop_all 0 4 3 taken ≡ some (10 ∷ 20 ∷ [])
drop_all-contents_example = drop_all-contents 0 4 four 3 taken wrapped-IsReady (omega arith)

unleak_internal_loses_example :
    (s : Leaked) × (r' : FullSyncMove ℕ) × (Move.leak_slot_internal 0 4 [] wrapped
      ≡ some (some s, r'))
    × (contents 0 4 (Move.unleak_internal 0 4 r') ≡ 10 ∷ [])
    × IsReady 4 (Move.unleak_internal 0 4 r')
unleak_internal_loses_example =
    unleak_internal_loses 0 4 four wrapped (10 ∷ []) 20 wrapped-IsReady (omega arith) refl
