-- ===== src/Atomic/Concurrent/Exclusion.antt =====
-- AtomicMove under any number of threads: who owns which slot.
use mathlib.Core.Path.{subst}
use native.Mathlib.Decide.{dec_lt}
use reactive_mutiny.Common.{
  ℕ, ◌+◌, ◌-◌, ◌%◌, ◌^◌, ◌<◌, ◌≤◌, ◌≡◌, ◌≢◌, ◌⊎◌, inl, inr, refl, sym, ap, ◌∙◌, List, [], ◌∷◌, ◌++◌,
  arith, length, sub_u32, IsRingSize, ring_size_bounds,
}
use reactive_mutiny.Ring.{add-mod-ne}
use reactive_mutiny.FullSync.Move.Refine.{tail_index}
use reactive_mutiny.Atomic.Move.{AtomicMove, with_initializer}
use reactive_mutiny.Atomic.Concurrent.{
  Phase, writing, publishing, reading, releasing, System, Step, start_publish, find_room, find_full,
  recede, recede_later, write, publish, start_consume, find_element, find_empty, retreat,
  retreat_later, read, release, start, Reachable, initially, later,
}
use reactive_mutiny.Atomic.Concurrent.Tally.{
  tally, tally_at, tally-append, one, producer, producers-add-consumers, producer_of, filler_of,
  consumer_of, taker_of, fillers-le-producers, takers-le-consumers,
}
use reactive_mutiny.Atomic.Concurrent.Invariant.{IsConsistent}
use reactive_mutiny.Atomic.Concurrent.Invariant.Producers.{
  publish-IsConsistent, find_room-IsConsistent, find_full-IsConsistent, recede-IsConsistent,
  recede_later-IsConsistent, write-IsConsistent, start_publish-IsConsistent,
}
use reactive_mutiny.Atomic.Concurrent.Invariant.Consumers.{
  find_element-IsConsistent, find_empty-IsConsistent, retreat-IsConsistent,
  retreat_later-IsConsistent, read-IsConsistent, release-IsConsistent, start_consume-IsConsistent,
}

tally-one {ℓ} : {A : Type ℓ} (ops : List (Phase A)) → tally one ops ≡ length ops
tally-one [] = refl
tally-one (p ∷ ops) = omega (arith, tally-one ops)

-- The operations that read or write a slot, or did and have not moved the counter yet.
pub data Owns {ℓ} {A : Type ℓ} : Phase A → ℕ → Type ℓ where
  fills : (i : ℕ) (x : A) → Owns (writing i x) i
  filled : (i : ℕ) → Owns (publishing i) i
  takes : (i : ℕ) → Owns (reading i) i
  taken : (i : ℕ) (x : A) → Owns (releasing i x) i

owner_side {ℓ} :
    {A : Type ℓ} (p : Phase A) (i : ℕ)
    → Owns p i
    → ((filler_of i p ≡ 1) × (producer_of i p ≡ 1)) ⊎ ((taker_of i p ≡ 1) × (consumer_of i p ≡ 1))
owner_side _ _ (fills i x) = inl (ground arith, ground arith)
owner_side _ _ (filled i) = inl (ground arith, ground arith)
owner_side _ _ (takes i) = inr (ground arith, ground arith)
owner_side _ _ (taken i x) = inr (ground arith, ground arith)

module _ {ℓ} {A : Type ℓ} (d : A) (size max_threads : ℕ) (sz : IsRingSize size)
    (threads : max_threads ≤ 2 ^ 30) where
  -- Every step of a thread keeps the reserved ids consistent with the counters.
  pub step-IsConsistent :
      (s s' : System A)
      → Step d size max_threads s s'
      → IsConsistent size max_threads s.queue s.ops
      → IsConsistent size max_threads s'.queue s'.ops
  step-IsConsistent _ _ (start_publish x q ops lt) v =
      start_publish-IsConsistent size max_threads sz threads x q ops (omega (arith, tally-one ops))
        v
  step-IsConsistent _ _ (find_room i x q before after e) v =
      find_room-IsConsistent size max_threads sz threads i x q before after e v
  step-IsConsistent _ _ (find_full i x q before after e) v =
      find_full-IsConsistent size max_threads sz threads i x q before after v
  step-IsConsistent _ _ (recede i x q before after e) v =
      recede-IsConsistent size max_threads sz threads i x q before after e v
  step-IsConsistent _ _ (recede_later i x q before after) v =
      recede_later-IsConsistent size max_threads sz threads i x q before after v
  step-IsConsistent _ _ (write i x q before after) v =
      write-IsConsistent size max_threads sz threads i x _ q before after v
  step-IsConsistent _ _ (publish i q before after e) v =
      publish-IsConsistent size max_threads sz threads i q before after e v
  step-IsConsistent _ _ (start_consume q ops lt) v =
      start_consume-IsConsistent size max_threads sz threads q ops (omega (arith, tally-one ops)) v
  step-IsConsistent _ _ (find_element i q before after e) v =
      find_element-IsConsistent size max_threads sz threads i q before after e v
  step-IsConsistent _ _ (find_empty i q before after e) v =
      find_empty-IsConsistent size max_threads sz threads i q before after v
  step-IsConsistent _ _ (retreat i q before after e) v =
      retreat-IsConsistent size max_threads sz threads i q before after e v
  step-IsConsistent _ _ (retreat_later i q before after) v =
      retreat_later-IsConsistent size max_threads sz threads i q before after v
  step-IsConsistent _ _ (read i q before after) v =
      read-IsConsistent size max_threads sz threads i _ q before after v
  step-IsConsistent _ _ (release i x q before after e) v =
      release-IsConsistent size max_threads sz threads i x q before after e v

  start-IsConsistent :
      (slot : A)
      → IsConsistent size max_threads
          (start d size max_threads slot).queue
          (start d size max_threads slot).ops
  unfolding with_initializer
  start-IsConsistent slot = record {
    head_word = omega arith;
    tail_word = omega arith;
    enqueuer_word = omega arith;
    dequeuer_word = omega arith;
    bounded = omega (arith, ring_size_bounds sz);
    few = omega arith;
    producers = λ i. ground arith;
    producers_count = refl;
    consumers = λ i. ground arith;
    consumers_count = refl;
    fillers = λ i has. absurd (omega arith);
    takers = λ i has. absurd (omega arith);
  }

  -- Whatever the threads do, in any order, on a new queue: the ids that producers hold are those from
  -- the tail to the enqueuers' tail, the ids that consumers hold are those from the head to the
  -- dequeuers' head, each once, and the owned slots lie inside the buffer.
  pub Reachable-IsConsistent :
      (slot : A) (s : System A)
      → Reachable d size max_threads (start d size max_threads slot) s
      → IsConsistent size max_threads s.queue s.ops
  Reachable-IsConsistent slot _ initially = start-IsConsistent slot
  Reachable-IsConsistent slot _ (later s s' before step) =
      step-IsConsistent s s' step (Reachable-IsConsistent slot s before)

  -- Ids inside the window of the buffer fall on different slots.
  apart :
      (h i j : ℕ)
      → h < 2 ^ 32
      → i < 2 ^ 32
      → j < 2 ^ 32
      → sub_u32 i h < sub_u32 j h
      → sub_u32 j h < size
      → i % size ≢ j % size
  apart h i j hw iw jw less inside e =
      add-mod-ne size (h + sub_u32 i h) (sub_u32 j h - sub_u32 i h) (omega arith) (omega arith) (
        ap (λ k. k % size)
          (let e : h + sub_u32 i h + (sub_u32 j h - sub_u32 i h) ≡ h + sub_u32 j h = omega arith in
            e)
        ∙ sym (tail_index {A = A} d size sz h j hw jw)
        ∙ sym e
        ∙ tail_index {A = A} d size sz h i hw iw)

  -- No two operations ever own the same slot: neither two producers, nor two consumers, nor one of each.
  pub never_shared :
      (slot : A) (q : AtomicMove A) (before middle after : List (Phase A)) (p p' : Phase A)
      (i j : ℕ)
      → Reachable d size max_threads
          (start d size max_threads slot)
          (record { queue = q; ops = before ++ p ∷ (middle ++ p' ∷ after) })
      → Owns p i
      → Owns p' j
      → i % size ≢ j % size
  never_shared slot q before middle after p p' i j reach own own' =
      elim (dec_lt (sub_u32 i q.head) (sub_u32 j q.head)) [
        | yes less ↦ apart q.head i j v.head_word (word i (at_i)) (word j at_j) less (inside j at_j)
        | no not_less ↦ elim (dec_lt (sub_u32 j q.head) (sub_u32 i q.head)) [
          | yes less ↦ λ e.
              apart q.head j i v.head_word (word j at_j) (word i at_i) less (inside i at_i) (sym e)
          | no not_more ↦
              let same : i ≡ j = omega (arith, v.head_word, word i at_i, word j at_j) in
              absurd (
                clash (owner_side p i own)
                  (owner_side p' i (subst (λ k. Owns p' k) (sym same) own')))
        ]
      ]
    where
      ops : List (Phase A)
      ops = before ++ p ∷ (middle ++ p' ∷ after)

      v : IsConsistent size max_threads q ops
      v = Reachable-IsConsistent slot (record { queue = q; ops = ops }) reach

      both : (f : Phase A → ℕ) → f p + f p' ≤ tally f ops
      both f = omega (
        arith,
        tally_at f before p (middle ++ p' ∷ after),
        tally-append f before (middle ++ p' ∷ after),
        tally_at f middle p' after,
      )

      at_i : (0 < tally (filler_of i) ops) ⊎ (0 < tally (taker_of i) ops)
      at_i = elim (owner_side p i own) [
        | inl o ↦ inl (omega (arith, both (filler_of i), o.0))
        | inr o ↦ inr (omega (arith, both (taker_of i), o.0))
      ]

      at_j : (0 < tally (filler_of j) ops) ⊎ (0 < tally (taker_of j) ops)
      at_j = elim (owner_side p' j own') [
        | inl o ↦ inl (omega (arith, both (filler_of j), o.0))
        | inr o ↦ inr (omega (arith, both (taker_of j), o.0))
      ]

      word : (k : ℕ) → (0 < tally (filler_of k) ops) ⊎ (0 < tally (taker_of k) ops) → k < 2 ^ 32
      word k (inl has) = ground (arith, v.producers k, fillers-le-producers k ops)
      word k (inr has) = ground (arith, v.consumers k, takers-le-consumers k ops)

      inside :
          (k : ℕ)
          → (0 < tally (filler_of k) ops) ⊎ (0 < tally (taker_of k) ops)
          → sub_u32 k q.head < size
      inside k (inl has) = v.fillers k has
      inside k (inr has) = omega (arith, v.takers k has, v.bounded)

      in_flight : tally producer ops ≤ 2 ^ 30
      in_flight = omega (arith, producers-add-consumers ops, v.few)

      two_sides : 0 < tally (filler_of i) ops → 0 < tally (taker_of i) ops → ⊥
      two_sides has has' = ground (
        arith,
        v.producers i,
        fillers-le-producers i ops,
        v.takers i has',
        v.bounded,
        v.producers_count,
        in_flight,
        ring_size_bounds sz,
        v.head_word,
        v.tail_word,
      )

      clash :
          ((filler_of i p ≡ 1) × (producer_of i p ≡ 1))
            ⊎ ((taker_of i p ≡ 1) × (consumer_of i p ≡ 1))
          → ((filler_of i p' ≡ 1) × (producer_of i p' ≡ 1))
            ⊎ ((taker_of i p' ≡ 1) × (consumer_of i p' ≡ 1))
          → ⊥
      clash (inl o) (inl o') = ground (arith, v.producers i, both (producer_of i), o.1, o'.1)
      clash (inr o) (inr o') = ground (arith, v.consumers i, both (consumer_of i), o.1, o'.1)
      clash (inl o) (inr o') =
          two_sides (omega (arith, both (filler_of i), o.0))
            (omega (arith, both (taker_of i), o'.0))
      clash (inr o) (inl o') =
          two_sides (omega (arith, both (filler_of i), o'.0))
            (omega (arith, both (taker_of i), o.0))
