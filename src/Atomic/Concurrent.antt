-- ===== src/Atomic/Concurrent.antt =====
-- AtomicMove of src/ogre_std/ogre_queues/atomic/atomic_move.rs under any number of threads: one step for
-- each atomic operation of leak_slot_internal, publish_leaked_internal, consume_leaking_internal and
-- release_leaked_internal, in any order. A compare_exchange_weak may fail without a reason.
pub mod Tally
pub mod Invariant
pub mod Exclusion
use reactive_mutiny.Common.{
  ℕ, ◌+◌, ◌%◌, ◌^◌, ◌<◌, ◌≡◌, Bool, true, false, List, [], ◌∷◌, ◌++◌, get_or, set, ltb, add_u32,
  sub_u32, is_pos_i32, length,
}
use reactive_mutiny.Atomic.Move.{AtomicMove, with_initializer}

-- How far a thread is with its operation, and the id that it reserved.
pub data Phase {ℓ} (A : Type ℓ) : Type ℓ where
  -- a producer, before it loads the head
  checking : ℕ → A → Phase A
  -- a producer that found the queue full, before it gives the id back
  receding : ℕ → A → Phase A
  -- a producer whose slot is free, before it writes it
  writing : ℕ → A → Phase A
  -- a producer that wrote its slot, before it makes it public
  publishing : ℕ → Phase A
  -- a consumer, before it loads the tail
  probing : ℕ → Phase A
  -- a consumer that found the queue empty, before it gives the id back
  retreating : ℕ → Phase A
  -- a consumer whose slot is published, before it reads it
  reading : ℕ → Phase A
  -- a consumer that read its slot, before it frees it
  releasing : ℕ → A → Phase A

-- The queue, and the operations under way.
pub record System {ℓ} (A : Type ℓ) : Type ℓ where
  pub queue : AtomicMove A
  pub ops : List (Phase A)

module _ {ℓ} {A : Type ℓ} (d : A) (size max_threads : ℕ) where
  pub data Step : System A → System A → Type ℓ where
    start_publish :
        (x : A) (q : AtomicMove A) (ops : List (Phase A))
        → length ops < max_threads
        → Step
            (record { queue = q; ops = ops })
            (record {
              queue = record q { enqueuer_tail = add_u32 q.enqueuer_tail 1 };
              ops = checking q.enqueuer_tail x ∷ ops;
            })
    find_room :
        (i : ℕ) (x : A) (q : AtomicMove A) (before after : List (Phase A))
        → ltb (sub_u32 i q.head) (size % 2 ^ 32) ≡ true
        → Step
            (record { queue = q; ops = before ++ checking i x ∷ after })
            (record { queue = q; ops = before ++ writing i x ∷ after })
    find_full :
        (i : ℕ) (x : A) (q : AtomicMove A) (before after : List (Phase A))
        → ltb (sub_u32 i q.head) (size % 2 ^ 32) ≡ false
        → Step
            (record { queue = q; ops = before ++ checking i x ∷ after })
            (record { queue = q; ops = before ++ receding i x ∷ after })
    recede :
        (i : ℕ) (x : A) (q : AtomicMove A) (before after : List (Phase A))
        → q.enqueuer_tail ≡ add_u32 i 1
        → Step
            (record { queue = q; ops = before ++ receding i x ∷ after })
            (record { queue = record q { enqueuer_tail = i }; ops = before ++ after })
    recede_later :
        (i : ℕ) (x : A) (q : AtomicMove A) (before after : List (Phase A))
        → Step
            (record { queue = q; ops = before ++ receding i x ∷ after })
            (record { queue = q; ops = before ++ checking i x ∷ after })
    write :
        (i : ℕ) (x : A) (q : AtomicMove A) (before after : List (Phase A))
        → Step
            (record { queue = q; ops = before ++ writing i x ∷ after })
            (record {
              queue = record q { buffer = set q.buffer (i % size) x };
              ops = before ++ publishing i ∷ after;
            })
    publish :
        (i : ℕ) (q : AtomicMove A) (before after : List (Phase A))
        → q.tail ≡ i
        → Step
            (record { queue = q; ops = before ++ publishing i ∷ after })
            (record { queue = record q { tail = add_u32 i 1 }; ops = before ++ after })
    start_consume :
        (q : AtomicMove A) (ops : List (Phase A))
        → length ops < max_threads
        → Step
            (record { queue = q; ops = ops })
            (record {
              queue = record q { dequeuer_head = add_u32 q.dequeuer_head 1 };
              ops = probing q.dequeuer_head ∷ ops;
            })
    find_element :
        (i : ℕ) (q : AtomicMove A) (before after : List (Phase A))
        → is_pos_i32 (sub_u32 q.tail i) ≡ true
        → Step
            (record { queue = q; ops = before ++ probing i ∷ after })
            (record { queue = q; ops = before ++ reading i ∷ after })
    find_empty :
        (i : ℕ) (q : AtomicMove A) (before after : List (Phase A))
        → is_pos_i32 (sub_u32 q.tail i) ≡ false
        → Step
            (record { queue = q; ops = before ++ probing i ∷ after })
            (record { queue = q; ops = before ++ retreating i ∷ after })
    retreat :
        (i : ℕ) (q : AtomicMove A) (before after : List (Phase A))
        → q.dequeuer_head ≡ add_u32 i 1
        → Step
            (record { queue = q; ops = before ++ retreating i ∷ after })
            (record { queue = record q { dequeuer_head = i }; ops = before ++ after })
    retreat_later :
        (i : ℕ) (q : AtomicMove A) (before after : List (Phase A))
        → Step
            (record { queue = q; ops = before ++ retreating i ∷ after })
            (record { queue = q; ops = before ++ probing i ∷ after })
    read :
        (i : ℕ) (q : AtomicMove A) (before after : List (Phase A))
        → Step
            (record { queue = q; ops = before ++ reading i ∷ after })
            (record {
              queue = q;
              ops = before ++ releasing i (get_or q.buffer (i % size) d) ∷ after;
            })
    release :
        (i : ℕ) (x : A) (q : AtomicMove A) (before after : List (Phase A))
        → q.head ≡ i
        → Step
            (record { queue = q; ops = before ++ releasing i x ∷ after })
            (record { queue = record q { head = add_u32 i 1 }; ops = before ++ after })

  -- A new queue, with no operation under way.
  abbrev pub start : A → System A
  start slot = record { queue = with_initializer d size slot; ops = [] }

  -- The systems that some sequence of steps leads to.
  pub data Reachable (start : System A) : System A → Type ℓ where
    initially : Reachable start start
    later : (s s' : System A) → Reachable start s → Step s s' → Reachable start s'
