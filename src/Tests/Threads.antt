-- ===== src/Tests/Threads.antt =====
-- AtomicMove on concrete queues of four slots, alone and with two threads.
use reactive_mutiny.Common.{ℕ, ◌-◌, ◌%◌, ◌^◌, ◌≡◌, ◌≢◌, refl, some, List, [], ◌∷◌, arith}
use reactive_mutiny.Fifo
use reactive_mutiny.Atomic.Move
use reactive_mutiny.Atomic.Move.{AtomicMove, Round}
use reactive_mutiny.Atomic.Move.Refine.{IsQuiet, contents, publish_movable_lem, consume_movable_lem}
use reactive_mutiny.Atomic.Concurrent.{
  Phase, reading, writing, start_publish, find_room, write, publish, start_consume, find_element,
  start, Reachable, initially, later,
}
use reactive_mutiny.Atomic.Concurrent.Invariant.{IsConsistent}
use reactive_mutiny.Atomic.Concurrent.Exclusion.{fills, takes, Reachable-IsConsistent, never_shared}
use reactive_mutiny.Tests.Queues.{four}

-- 10, then 20, round the end of the buffer and of the word.
abbrev pub around : AtomicMove ℕ
around = record {
  head = 2 ^ 32 - 1;
  enqueuer_tail = 1;
  buffer = 20 ∷ 30 ∷ 40 ∷ 10 ∷ [];
  dequeuer_head = 2 ^ 32 - 1;
  tail = 1;
}

pub around-IsQuiet : IsQuiet 4 around
around-IsQuiet = record {
  no_producer = refl;
  no_consumer = refl;
  shape = refl;
  head_word = omega arith;
  tail_word = omega arith;
  bounded = omega arith;
}

publish_movable_lem_example :
    (r' : AtomicMove ℕ) × (Move.publish_movable 0 4 50 around
      ≡ some ((Fifo.publish 4 50 (contents 0 4 around)).0, r'))
    × (contents 0 4 r' ≡ (Fifo.publish 4 50 (contents 0 4 around)).1)
    × IsQuiet 4 r'
publish_movable_lem_example = publish_movable_lem 0 4 four 50 around around-IsQuiet

consume_movable_lem_example :
    (r' : AtomicMove ℕ) × (Move.consume_movable 0 4 around
      ≡ some ((Fifo.consume (contents 0 4 around)).0, r'))
    × (contents 0 4 r' ≡ (Fifo.consume (contents 0 4 around)).1)
    × IsQuiet 4 r'
consume_movable_lem_example = consume_movable_lem 0 4 four around around-IsQuiet

-- Another thread takes every element.
abbrev emptying : AtomicMove ℕ → AtomicMove ℕ
emptying r = record r { head = r.tail; dequeuer_head = r.tail }

emptying-IsQuiet : (r : AtomicMove ℕ) → IsQuiet 4 r → IsQuiet 4 (emptying r)
emptying-IsQuiet r v = ground arith

-- The queue after 5 was published, while one thread reads it and another writes 6.
abbrev busy : AtomicMove ℕ
busy = record {
  head = 0;
  enqueuer_tail = 2;
  buffer = 5 ∷ 0 ∷ 0 ∷ 0 ∷ [];
  dequeuer_head = 1;
  tail = 1;
}

abbrev phases : List (Phase ℕ)
phases = reading 0 ∷ writing 1 6 ∷ []

abbrev published_one : AtomicMove ℕ
published_one = record {
  head = 0;
  enqueuer_tail = 1;
  buffer = 5 ∷ 0 ∷ 0 ∷ 0 ∷ [];
  dequeuer_head = 0;
  tail = 1;
}

publishes_one : Reachable 0 4 2 (start 0 4 2 0) (record { queue = published_one; ops = [] })
unfolding Move.with_initializer
publishes_one =
    later _ _
      (later _ _
        (later _ _ (later _ _ initially (start_publish 5 _ [] (omega arith)))
          (find_room 0 5 _ [] [] refl))
        (write 0 5 _ [] []))
      (publish 0 _ [] [] refl)

busy-Reachable : Reachable 0 4 2 (start 0 4 2 0) (record { queue = busy; ops = phases })
busy-Reachable =
    later _ _
      (later _ _
        (later _ _ (later _ _ publishes_one (start_publish 6 published_one [] (omega arith)))
          (find_room 1 6 (record published_one { enqueuer_tail = 2 }) [] [] refl))
        (start_consume (record published_one { enqueuer_tail = 2 }) (writing 1 6 ∷ [])
          (omega arith)))
      (find_element 0 busy [] (writing 1 6 ∷ []) refl)

Reachable-IsConsistent_example : IsConsistent 4 2 busy phases
Reachable-IsConsistent_example =
    Reachable-IsConsistent 0 4 2 four (omega arith) 0 (record { queue = busy; ops = phases })
      busy-Reachable

never_shared_example : 0 % 4 ≢ 1 % 4
never_shared_example =
    never_shared 0 4 2 four (omega arith) 0 busy [] [] [] (reading 0) (writing 1 6) 0 1
      busy-Reachable (takes 0) (fills 1 6)
