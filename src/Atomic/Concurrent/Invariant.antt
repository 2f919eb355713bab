-- ===== src/Atomic/Concurrent/Invariant.antt =====
-- AtomicMove under any number of threads: the reserved ids and the counters.
pub mod Producers
pub mod Consumers
use reactive_mutiny.Common.{
  ℕ, ◌+◌, ◌-◌, ◌%◌, ◌^◌, ◌<◌, ◌≤◌, ◌≡◌, refl, Bool, true, false, List, [], ◌∷◌, ◌++◌, arith, length,
  get_or, set, ltb, ◌==◌, if◌then◌else◌, add_u32, sub_u32, is_pos_i32, IsRingSize, ring_size_bounds,
}
use reactive_mutiny.Atomic.Move.{AtomicMove}
use reactive_mutiny.Atomic.Concurrent.{
  Phase, checking, receding, writing, publishing, probing, retreating, reading, releasing, System,
  Step, Reachable,
}
use reactive_mutiny.Atomic.Concurrent.Tally.{
  tally, tally_at, one, producer, consumer, producer_of, filler_of, consumer_of, taker_of,
  fillers-le-producers, takers-le-consumers, producers-add-consumers,
}

-- `1` for a word in the range that starts at `from` and ends before `to`.
abbrev pub in_range : ℕ → ℕ → ℕ → ℕ
in_range from to i =
    if ltb i (2 ^ 32) then (if ltb (sub_u32 i from) (sub_u32 to from) then 1 else 0) else 0

module _ {ℓ} {A : Type ℓ} (size max_threads : ℕ) where
  pub record IsConsistent (q : AtomicMove A) (ops : List (Phase A)) : Type 0 where
    pub head_word : q.head < 2 ^ 32
    pub tail_word : q.tail < 2 ^ 32
    pub enqueuer_word : q.enqueuer_tail < 2 ^ 32
    pub dequeuer_word : q.dequeuer_head < 2 ^ 32
    pub bounded : sub_u32 q.tail q.head ≤ size
    pub few : tally one ops ≤ max_threads
    pub producers : (i : ℕ) → tally (producer_of i) ops ≡ in_range q.tail q.enqueuer_tail i
    pub producers_count : sub_u32 q.enqueuer_tail q.tail ≡ tally producer ops
    pub consumers : (i : ℕ) → tally (consumer_of i) ops ≡ in_range q.head q.dequeuer_head i
    pub consumers_count : sub_u32 q.dequeuer_head q.head ≡ tally consumer ops
    pub fillers : (i : ℕ) → 0 < tally (filler_of i) ops → sub_u32 i q.head < size
    pub takers : (i : ℕ) → 0 < tally (taker_of i) ops → sub_u32 i q.head < sub_u32 q.tail q.head
