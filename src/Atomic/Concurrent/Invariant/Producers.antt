-- ===== src/Atomic/Concurrent/Invariant/Producers.antt =====
-- AtomicMove under any number of threads: the steps of producers.
use reactive_mutiny.Common.{
  ℕ, ◌+◌, ◌%◌, ◌^◌, ◌<◌, ◌≤◌, ◌≡◌, true, List, ◌∷◌, ◌++◌, arith, ltb, add_u32, sub_u32, IsRingSize,
  ring_size_bounds,
}
use reactive_mutiny.Atomic.Move.{AtomicMove}
use reactive_mutiny.Atomic.Concurrent.{Phase, checking, receding, writing, publishing}
use reactive_mutiny.Atomic.Concurrent.Tally.{
  tally, tally_at, one, producer, consumer, producer_of, filler_of, consumer_of, taker_of,
  producers-add-consumers,
}
use reactive_mutiny.Atomic.Concurrent.Invariant.{IsConsistent}

module _ {ℓ} {A : Type ℓ} (size max_threads : ℕ) (sz : IsRingSize size)
    (threads : max_threads ≤ 2 ^ 30) where
  pub publish-IsConsistent :
      (i : ℕ) (q : AtomicMove A) (before after : List (Phase A))
      → q.tail ≡ i
      → IsConsistent size max_threads q (before ++ publishing i ∷ after)
      → IsConsistent size max_threads (record q { tail = add_u32 i 1 }) (before ++ after)
  publish-IsConsistent i q before after e v = record {
    head_word = v.head_word;
    tail_word = omega arith;
    enqueuer_word = v.enqueuer_word;
    dequeuer_word = v.dequeuer_word;
    bounded = omega (arith, own, ring_size_bounds sz, v.bounded);
    few = omega (arith, tally_at one before (publishing i) after, v.few);
    producers = λ j. ground (
      arith,
      v.producers j,
      tally_at (producer_of j) before (publishing i) after,
      total,
      in_flight,
    );
    producers_count = omega (arith, total, in_flight, v.producers_count);
    consumers =
        λ j. omega (arith, v.consumers j, tally_at (consumer_of j) before (publishing i) after);
    consumers_count =
        omega (arith, v.consumers_count, tally_at consumer before (publishing i) after);
    fillers = λ j. ground (arith, v.fillers j, tally_at (filler_of j) before (publishing i) after);
    takers = λ j. ground (
      arith,
      own,
      ring_size_bounds sz,
      v.takers j,
      tally_at (taker_of j) before (publishing i) after,
    );
  }
    where
      total : tally producer (before ++ publishing i ∷ after) ≡ 1 + tally producer (before ++ after)
      total = tally_at producer before (publishing i) after

      in_flight : tally producer (before ++ publishing i ∷ after) ≤ 2 ^ 30
      in_flight = omega (arith, producers-add-consumers (before ++ publishing i ∷ after), v.few)

      own : sub_u32 i q.head < size
      own = v.fillers i (ground (arith, tally_at (filler_of i) before (publishing i) after))

  pub find_room-IsConsistent :
      (i : ℕ) (x : A) (q : AtomicMove A) (before after : List (Phase A))
      → ltb (sub_u32 i q.head) (size % 2 ^ 32) ≡ true
      → IsConsistent size max_threads q (before ++ checking i x ∷ after)
      → IsConsistent size max_threads q (before ++ writing i x ∷ after)
  find_room-IsConsistent i x q before after e v = record {
    head_word = v.head_word;
    tail_word = v.tail_word;
    enqueuer_word = v.enqueuer_word;
    dequeuer_word = v.dequeuer_word;
    bounded = v.bounded;
    few = omega (
      arith,
      tally_at one before (checking i x) after,
      tally_at one before (writing i x) after,
      v.few,
    );
    producers = λ j. omega (
      arith,
      v.producers j,
      tally_at (producer_of j) before (checking i x) after,
      tally_at (producer_of j) before (writing i x) after,
    );
    producers_count = omega (
      arith,
      v.producers_count,
      tally_at producer before (checking i x) after,
      tally_at producer before (writing i x) after,
    );
    consumers = λ j. omega (
      arith,
      v.consumers j,
      tally_at (consumer_of j) before (checking i x) after,
      tally_at (consumer_of j) before (writing i x) after,
    );
    consumers_count = omega (
      arith,
      v.consumers_count,
      tally_at consumer before (checking i x) after,
      tally_at consumer before (writing i x) after,
    );
    fillers = λ j. ground (
      arith,
      ring_size_bounds sz,
      v.fillers j,
      tally_at (filler_of j) before (checking i x) after,
      tally_at (filler_of j) before (writing i x) after,
    );
    takers = λ j. ground (
      arith,
      v.takers j,
      tally_at (taker_of j) before (checking i x) after,
      tally_at (taker_of j) before (writing i x) after,
    );
  }

  pub find_full-IsConsistent :
      (i : ℕ) (x : A) (q : AtomicMove A) (before after : List (Phase A))
      → IsConsistent size max_threads q (before ++ checking i x ∷ after)
      → IsConsistent size max_threads q (before ++ receding i x ∷ after)
  find_full-IsConsistent i x q before after v = record {
    head_word = v.head_word;
    tail_word = v.tail_word;
    enqueuer_word = v.enqueuer_word;
    dequeuer_word = v.dequeuer_word;
    bounded = v.bounded;
    few = omega (
      arith,
      tally_at one before (checking i x) after,
      tally_at one before (receding i x) after,
      v.few,
    );
    producers = λ j. omega (
      arith,
      v.producers j,
      tally_at (producer_of j) before (checking i x) after,
      tally_at (producer_of j) before (receding i x) after,
    );
    producers_count = omega (
      arith,
      v.producers_count,
      tally_at producer before (checking i x) after,
      tally_at producer before (receding i x) after,
    );
    consumers = λ j. omega (
      arith,
      v.consumers j,
      tally_at (consumer_of j) before (checking i x) after,
      tally_at (consumer_of j) before (receding i x) after,
    );
    consumers_count = omega (
      arith,
      v.consumers_count,
      tally_at consumer before (checking i x) after,
      tally_at consumer before (receding i x) after,
    );
    fillers = λ j. ground (
      arith,
      v.fillers j,
      tally_at (filler_of j) before (checking i x) after,
      tally_at (filler_of j) before (receding i x) after,
    );
    takers = λ j. ground (
      arith,
      v.takers j,
      tally_at (taker_of j) before (checking i x) after,
      tally_at (taker_of j) before (receding i x) after,
    );
  }

  pub recede-IsConsistent :
      (i : ℕ) (x : A) (q : AtomicMove A) (before after : List (Phase A))
      → q.enqueuer_tail ≡ add_u32 i 1
      → IsConsistent size max_threads q (before ++ receding i x ∷ after)
      → IsConsistent size max_threads (record q { enqueuer_tail = i }) (before ++ after)
  recede-IsConsistent i x q before after e v = record {
    head_word = v.head_word;
    tail_word = v.tail_word;
    enqueuer_word = word;
    dequeuer_word = v.dequeuer_word;
    bounded = v.bounded;
    few = omega (arith, tally_at one before (receding i x) after, v.few);
    producers = λ j. ground (
      arith,
      v.producers j,
      tally_at (producer_of j) before (receding i x) after,
      word,
      tally_at producer before (receding i x) after,
      in_flight,
      v.producers_count,
    );
    producers_count =
        omega (
          arith,
          word,
          tally_at producer before (receding i x) after,
          in_flight,
          v.producers_count,
        );
    consumers =
        λ j. omega (arith, v.consumers j, tally_at (consumer_of j) before (receding i x) after);
    consumers_count =
        omega (arith, v.consumers_count, tally_at consumer before (receding i x) after);
    fillers = λ j. ground (arith, v.fillers j, tally_at (filler_of j) before (receding i x) after);
    takers = λ j. ground (arith, v.takers j, tally_at (taker_of j) before (receding i x) after);
  }
    where
      in_flight : tally producer (before ++ receding i x ∷ after) ≤ 2 ^ 30
      in_flight = omega (arith, producers-add-consumers (before ++ receding i x ∷ after), v.few)

      word : i < 2 ^ 32
      word = ground (arith, v.producers i, tally_at (producer_of i) before (receding i x) after)

  pub recede_later-IsConsistent :
      (i : ℕ) (x : A) (q : AtomicMove A) (before after : List (Phase A))
      → IsConsistent size max_threads q (before ++ receding i x ∷ after)
      → IsConsistent size max_threads q (before ++ checking i x ∷ after)
  recede_later-IsConsistent i x q before after v = record {
    head_word = v.head_word;
    tail_word = v.tail_word;
    enqueuer_word = v.enqueuer_word;
    dequeuer_word = v.dequeuer_word;
    bounded = v.bounded;
    few = omega (
      arith,
      tally_at one before (receding i x) after,
      tally_at one before (checking i x) after,
      v.few,
    );
    producers = λ j. omega (
      arith,
      v.producers j,
      tally_at (producer_of j) before (receding i x) after,
      tally_at (producer_of j) before (checking i x) after,
    );
    producers_count = omega (
      arith,
      v.producers_count,
      tally_at producer before (receding i x) after,
      tally_at producer before (checking i x) after,
    );
    consumers = λ j. omega (
      arith,
      v.consumers j,
      tally_at (consumer_of j) before (receding i x) after,
      tally_at (consumer_of j) before (checking i x) after,
    );
    consumers_count = omega (
      arith,
      v.consumers_count,
      tally_at consumer before (receding i x) after,
      tally_at consumer before (checking i x) after,
    );
    fillers = λ j. ground (
      arith,
      v.fillers j,
      tally_at (filler_of j) before (receding i x) after,
      tally_at (filler_of j) before (checking i x) after,
    );
    takers = λ j. ground (
      arith,
      v.takers j,
      tally_at (taker_of j) before (receding i x) after,
      tally_at (taker_of j) before (checking i x) after,
    );
  }

  pub write-IsConsistent :
      (i : ℕ) (x : A) (buffer : List A) (q : AtomicMove A) (before after : List (Phase A))
      → IsConsistent size max_threads q (before ++ writing i x ∷ after)
      → IsConsistent size max_threads
          (record q { buffer = buffer })
          (before ++ publishing i ∷ after)
  write-IsConsistent i x buffer q before after v = record {
    head_word = v.head_word;
    tail_word = v.tail_word;
    enqueuer_word = v.enqueuer_word;
    dequeuer_word = v.dequeuer_word;
    bounded = v.bounded;
    few = omega (
      arith,
      tally_at one before (writing i x) after,
      tally_at one before (publishing i) after,
      v.few,
    );
    producers = λ j. omega (
      arith,
      v.producers j,
      tally_at (producer_of j) before (writing i x) after,
      tally_at (producer_of j) before (publishing i) after,
    );
    producers_count = omega (
      arith,
      v.producers_count,
      tally_at producer before (writing i x) after,
      tally_at producer before (publishing i) after,
    );
    consumers = λ j. omega (
      arith,
      v.consumers j,
      tally_at (consumer_of j) before (writing i x) after,
      tally_at (consumer_of j) before (publishing i) after,
    );
    consumers_count = omega (
      arith,
      v.consumers_count,
      tally_at consumer before (writing i x) after,
      tally_at consumer before (publishing i) after,
    );
    fillers = λ j. ground (
      arith,
      v.fillers j,
      tally_at (filler_of j) before (writing i x) after,
      tally_at (filler_of j) before (publishing i) after,
    );
    takers = λ j. ground (
      arith,
      v.takers j,
      tally_at (taker_of j) before (writing i x) after,
      tally_at (taker_of j) before (publishing i) after,
    );
  }

  pub start_publish-IsConsistent :
      (x : A) (q : AtomicMove A) (ops : List (Phase A))
      → tally one ops < max_threads
      → IsConsistent size max_threads q ops
      → IsConsistent size max_threads
          (record q { enqueuer_tail = add_u32 q.enqueuer_tail 1 })
          (checking q.enqueuer_tail x ∷ ops)
  start_publish-IsConsistent x q ops e v = record {
    head_word = v.head_word;
    tail_word = v.tail_word;
    enqueuer_word = omega arith;
    dequeuer_word = v.dequeuer_word;
    bounded = v.bounded;
    few = omega arith;
    producers = λ j. ground (arith, v.producers j, v.producers_count, in_flight);
    producers_count = omega (arith, v.producers_count, in_flight);
    consumers = λ j. omega (arith, v.consumers j);
    consumers_count = omega (arith, v.consumers_count);
    fillers = λ j has. v.fillers j (omega arith);
    takers = λ j has. v.takers j (omega arith);
  }
    where
      in_flight : tally producer ops < 2 ^ 30
      in_flight = omega (arith, producers-add-consumers ops)
