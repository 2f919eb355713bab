-- ===== src/Atomic/Concurrent/Invariant/Consumers.antt =====
-- AtomicMove under any number of threads: the steps of consumers.
use reactive_mutiny.Common.{
  ℕ, ◌^◌, ◌<◌, ◌≤◌, ◌≡◌, true, List, ◌∷◌, ◌++◌, arith, add_u32, sub_u32, is_pos_i32, IsRingSize,
  ring_size_bounds,
}
use reactive_mutiny.Atomic.Move.{AtomicMove}
use reactive_mutiny.Atomic.Concurrent.{Phase, probing, retreating, reading, releasing}
use reactive_mutiny.Atomic.Concurrent.Tally.{
  tally, tally_at, one, producer, consumer, producer_of, filler_of, consumer_of, taker_of,
  fillers-le-producers, takers-le-consumers, producers-add-consumers,
}
use reactive_mutiny.Atomic.Concurrent.Invariant.{IsConsistent}

module _ {ℓ} {A : Type ℓ} (size max_threads : ℕ) (sz : IsRingSize size)
    (threads : max_threads ≤ 2 ^ 30) where
  pub find_element-IsConsistent :
      (i : ℕ) (q : AtomicMove A) (before after : List (Phase A))
      → is_pos_i32 (sub_u32 q.tail i) ≡ true
      → IsConsistent size max_threads q (before ++ probing i ∷ after)
      → IsConsistent size max_threads q (before ++ reading i ∷ after)
  find_element-IsConsistent i q before after e v = record {
    head_word = v.head_word;
    tail_word = v.tail_word;
    enqueuer_word = v.enqueuer_word;
    dequeuer_word = v.dequeuer_word;
    bounded = v.bounded;
    few = omega (
      arith,
      tally_at one before (probing i) after,
      tally_at one before (reading i) after,
      v.few,
    );
    producers = λ j. omega (
      arith,
      v.producers j,
      tally_at (producer_of j) before (probing i) after,
      tally_at (producer_of j) before (reading i) after,
    );
    producers_count = omega (
      arith,
      v.producers_count,
      tally_at producer before (probing i) after,
      tally_at producer before (reading i) after,
    );
    consumers = λ j. omega (
      arith,
      v.consumers j,
      tally_at (consumer_of j) before (probing i) after,
      tally_at (consumer_of j) before (reading i) after,
    );
    consumers_count = omega (
      arith,
      v.consumers_count,
      tally_at consumer before (probing i) after,
      tally_at consumer before (reading i) after,
    );
    fillers = λ j. ground (
      arith,
      v.fillers j,
      tally_at (filler_of j) before (probing i) after,
      tally_at (filler_of j) before (reading i) after,
    );
    takers = λ j. ground (
      arith,
      ring_size_bounds sz,
      v.takers j,
      v.bounded,
      ahead,
      tally_at (taker_of j) before (probing i) after,
      tally_at (taker_of j) before (reading i) after,
    );
  }
    where
      in_flight : tally consumer (before ++ probing i ∷ after) ≤ 2 ^ 30
      in_flight = omega (arith, producers-add-consumers (before ++ probing i ∷ after), v.few)

      ahead : sub_u32 i q.head < sub_u32 q.tail q.head
      ahead = ground (
        arith,
        ring_size_bounds sz,
        v.bounded,
        v.consumers i,
        v.consumers_count,
        in_flight,
        tally_at (consumer_of i) before (probing i) after,
      )

  pub find_empty-IsConsistent :
      (i : ℕ) (q : AtomicMove A) (before after : List (Phase A))
      → IsConsistent size max_threads q (before ++ probing i ∷ after)
      → IsConsistent size max_threads q (before ++ retreating i ∷ after)
  find_empty-IsConsistent i q before after v = record {
    head_word = v.head_word;
    tail_word = v.tail_word;
    enqueuer_word = v.enqueuer_word;
    dequeuer_word = v.dequeuer_word;
    bounded = v.bounded;
    few = omega (
      arith,
      tally_at one before (probing i) after,
      tally_at one before (retreating i) after,
      v.few,
    );
    producers = λ j. omega (
      arith,
      v.producers j,
      tally_at (producer_of j) before (probing i) after,
      tally_at (producer_of j) before (retreating i) after,
    );
    producers_count = omega (
      arith,
      v.producers_count,
      tally_at producer before (probing i) after,
      tally_at producer before (retreating i) after,
    );
    consumers = λ j. omega (
      arith,
      v.consumers j,
      tally_at (consumer_of j) before (probing i) after,
      tally_at (consumer_of j) before (retreating i) after,
    );
    consumers_count = omega (
      arith,
      v.consumers_count,
      tally_at consumer before (probing i) after,
      tally_at consumer before (retreating i) after,
    );
    fillers = λ j. ground (
      arith,
      v.fillers j,
      tally_at (filler_of j) before (probing i) after,
      tally_at (filler_of j) before (retreating i) after,
    );
    takers = λ j. ground (
      arith,
      v.takers j,
      tally_at (taker_of j) before (probing i) after,
      tally_at (taker_of j) before (retreating i) after,
    );
  }

  pub retreat-IsConsistent :
      (i : ℕ) (q : AtomicMove A) (before after : List (Phase A))
      → q.dequeuer_head ≡ add_u32 i 1
      → IsConsistent size max_threads q (before ++ retreating i ∷ after)
      → IsConsistent size max_threads (record q { dequeuer_head = i }) (before ++ after)
  retreat-IsConsistent i q before after e v = record {
    head_word = v.head_word;
    tail_word = v.tail_word;
    enqueuer_word = v.enqueuer_word;
    dequeuer_word = word;
    bounded = v.bounded;
    few = omega (arith, tally_at one before (retreating i) after, v.few);
    producers =
        λ j. omega (arith, v.producers j, tally_at (producer_of j) before (retreating i) after);
    producers_count =
        omega (arith, v.producers_count, tally_at producer before (retreating i) after);
    consumers = λ j. ground (
      arith,
      v.consumers j,
      tally_at (consumer_of j) before (retreating i) after,
      word,
      tally_at consumer before (retreating i) after,
      in_flight,
      v.consumers_count,
    );
    consumers_count =
        omega (
          arith,
          word,
          tally_at consumer before (retreating i) after,
          in_flight,
          v.consumers_count,
        );
    fillers = λ j. ground (arith, v.fillers j, tally_at (filler_of j) before (retreating i) after);
    takers = λ j. ground (arith, v.takers j, tally_at (taker_of j) before (retreating i) after);
  }
    where
      in_flight : tally consumer (before ++ retreating i ∷ after) ≤ 2 ^ 30
      in_flight = omega (arith, producers-add-consumers (before ++ retreating i ∷ after), v.few)

      word : i < 2 ^ 32
      word = ground (arith, v.consumers i, tally_at (consumer_of i) before (retreating i) after)

  pub retreat_later-IsConsistent :
      (i : ℕ) (q : AtomicMove A) (before after : List (Phase A))
      → IsConsistent size max_threads q (before ++ retreating i ∷ after)
      → IsConsistent size max_threads q (before ++ probing i ∷ after)
  retreat_later-IsConsistent i q before after v = record {
    head_word = v.head_word;
    tail_word = v.tail_word;
    enqueuer_word = v.enqueuer_word;
    dequeuer_word = v.dequeuer_word;
    bounded = v.bounded;
    few = omega (
      arith,
      tally_at one before (retreating i) after,
      tally_at one before (probing i) after,
      v.few,
    );
    producers = λ j. omega (
      arith,
      v.producers j,
      tally_at (producer_of j) before (retreating i) after,
      tally_at (producer_of j) before (probing i) after,
    );
    producers_count = omega (
      arith,
      v.producers_count,
      tally_at producer before (retreating i) after,
      tally_at producer before (probing i) after,
    );
    consumers = λ j. omega (
      arith,
      v.consumers j,
      tally_at (consumer_of j) before (retreating i) after,
      tally_at (consumer_of j) before (probing i) after,
    );
    consumers_count = omega (
      arith,
      v.consumers_count,
      tally_at consumer before (retreating i) after,
      tally_at consumer before (probing i) after,
    );
    fillers = λ j. ground (
      arith,
      v.fillers j,
      tally_at (filler_of j) before (retreating i) after,
      tally_at (filler_of j) before (probing i) after,
    );
    takers = λ j. ground (
      arith,
      v.takers j,
      tally_at (taker_of j) before (retreating i) after,
      tally_at (taker_of j) before (probing i) after,
    );
  }

  pub read-IsConsistent :
      (i : ℕ) (x : A) (q : AtomicMove A) (before after : List (Phase A))
      → IsConsistent size max_threads q (before ++ reading i ∷ after)
      → IsConsistent size max_threads q (before ++ releasing i x ∷ after)
  read-IsConsistent i x q before after v = record {
    head_word = v.head_word;
    tail_word = v.tail_word;
    enqueuer_word = v.enqueuer_word;
    dequeuer_word = v.dequeuer_word;
    bounded = v.bounded;
    few = omega (
      arith,
      tally_at one before (reading i) after,
      tally_at one before (releasing i x) after,
      v.few,
    );
    producers = λ j. omega (
      arith,
      v.producers j,
      tally_at (producer_of j) before (reading i) after,
      tally_at (producer_of j) before (releasing i x) after,
    );
    producers_count = omega (
      arith,
      v.producers_count,
      tally_at producer before (reading i) after,
      tally_at producer before (releasing i x) after,
    );
    consumers = λ j. omega (
      arith,
      v.consumers j,
      tally_at (consumer_of j) before (reading i) after,
      tally_at (consumer_of j) before (releasing i x) after,
    );
    consumers_count = omega (
      arith,
      v.consumers_count,
      tally_at consumer before (reading i) after,
      tally_at consumer before (releasing i x) after,
    );
    fillers = λ j. ground (
      arith,
      v.fillers j,
      tally_at (filler_of j) before (reading i) after,
      tally_at (filler_of j) before (releasing i x) after,
    );
    takers = λ j. ground (
      arith,
      v.takers j,
      tally_at (taker_of j) before (reading i) after,
      tally_at (taker_of j) before (releasing i x) after,
    );
  }

  pub release-IsConsistent :
      (i : ℕ) (x : A) (q : AtomicMove A) (before after : List (Phase A))
      → q.head ≡ i
      → IsConsistent size max_threads q (before ++ releasing i x ∷ after)
      → IsConsistent size max_threads (record q { head = add_u32 i 1 }) (before ++ after)
  release-IsConsistent i x q before after e v = record {
    head_word = omega arith;
    tail_word = v.tail_word;
    enqueuer_word = v.enqueuer_word;
    dequeuer_word = v.dequeuer_word;
    bounded = omega (arith, own, ring_size_bounds sz, v.bounded);
    few = omega (arith, tally_at one before (releasing i x) after, v.few);
    producers =
        λ j. omega (arith, v.producers j, tally_at (producer_of j) before (releasing i x) after);
    producers_count =
        omega (arith, v.producers_count, tally_at producer before (releasing i x) after);
    consumers = λ j. ground (
      arith,
      v.consumers j,
      tally_at (consumer_of j) before (releasing i x) after,
      tally_at consumer before (releasing i x) after,
      in_flight,
      v.consumers_count,
    );
    consumers_count =
        omega (arith, tally_at consumer before (releasing i x) after, in_flight, v.consumers_count);
    fillers = λ j. ground (
      arith,
      own,
      ring_size_bounds sz,
      v.bounded,
      v.fillers j,
      tally_at (filler_of j) before (releasing i x) after,
      fillers-le-producers j (before ++ after),
      v.producers j,
      tally_at (producer_of j) before (releasing i x) after,
      v.producers_count,
      waiting,
    );
    takers = λ j. ground (
      arith,
      own,
      ring_size_bounds sz,
      v.bounded,
      v.takers j,
      tally_at (taker_of j) before (releasing i x) after,
      takers-le-consumers j (before ++ after),
      v.consumers j,
      tally_at (consumer_of j) before (releasing i x) after,
    );
  }
    where
      in_flight : tally consumer (before ++ releasing i x ∷ after) ≤ 2 ^ 30
      in_flight = omega (arith, producers-add-consumers (before ++ releasing i x ∷ after), v.few)

      waiting : tally producer (before ++ releasing i x ∷ after) ≤ 2 ^ 30
      waiting = omega (arith, producers-add-consumers (before ++ releasing i x ∷ after), v.few)

      own : sub_u32 i q.head < sub_u32 q.tail q.head
      own = v.takers i (ground (arith, tally_at (taker_of i) before (releasing i x) after))

  pub start_consume-IsConsistent :
      (q : AtomicMove A) (ops : List (Phase A))
      → tally one ops < max_threads
      → IsConsistent size max_threads q ops
      → IsConsistent size max_threads
          (record q { dequeuer_head = add_u32 q.dequeuer_head 1 })
          (probing q.dequeuer_head ∷ ops)
  start_consume-IsConsistent q ops e v = record {
    head_word = v.head_word;
    tail_word = v.tail_word;
    enqueuer_word = v.enqueuer_word;
    dequeuer_word = omega arith;
    bounded = v.bounded;
    few = omega arith;
    producers = λ j. omega (arith, v.producers j);
    producers_count = omega (arith, v.producers_count);
    consumers = λ j. ground (arith, v.consumers j, v.consumers_count, in_flight);
    consumers_count = omega (arith, v.consumers_count, in_flight);
    fillers = λ j has. v.fillers j (omega arith);
    takers = λ j has. v.takers j (omega arith);
  }
    where
      in_flight : tally consumer ops < 2 ^ 30
      in_flight = omega (arith, producers-add-consumers ops)
