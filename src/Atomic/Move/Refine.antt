-- ===== src/Atomic/Move/Refine.antt =====
-- AtomicMove against the bounded queue of its elements, where no other operation is under way.
use native.Mathlib.Decide.{dec_lt}
use reactive_mutiny.Common.{
  ℕ, ◌+◌, ◌-◌, ◌%◌, ◌^◌, ◌<◌, ◌≤◌, ◌≡◌, refl, sym, ap, ◌∙◌, true, false, none, some, List, [], ◌∷◌,
  ◌++◌, arith, length, set, get_or, length-set, sub_u32, add_u32, IsRingSize, ring_size_bounds,
  mod-u32-mod, ltb, is_pos_i32, non_zero_u32, Bool-cases, ◌==◌, inl, inr, ◌>>=◌,
}
use reactive_mutiny.Ring.{
  window, length-window, window_cong, window_of_pos, window_of_zero, window-set_end,
  window_of_slices,
}
use reactive_mutiny.Fifo
use reactive_mutiny.FullSync.Move.Refine.{tail_index}
use reactive_mutiny.Atomic.Move.{
  AtomicMove, try_leak_slot, leak_slot_internal, leak_slot_loop, publish_leaked_internal,
  publish_movable, consume_movable, try_unleak_slot_internal, try_publish_leaked_internal,
  try_consume_leaking, consume_leaking_internal, consume_leaking_loop, release_leaked_internal,
  peek_remaining,
}

-- The representation invariant where no operation is under way: nothing is reserved.
pub record IsQuiet {ℓ} {A : Type ℓ} (size : ℕ) (r : AtomicMove A) : Type 0 where
  pub no_producer : r.enqueuer_tail ≡ r.tail
  pub no_consumer : r.dequeuer_head ≡ r.head
  pub shape : length r.buffer ≡ size
  pub head_word : r.head < 2 ^ 32
  pub tail_word : r.tail < 2 ^ 32
  pub bounded : sub_u32 r.tail r.head ≤ size

module _ {ℓ} {A : Type ℓ} (d : A) (size : ℕ) where
  -- The elements, oldest first.
  abbrev pub contents : AtomicMove A → List A
  contents r = window d size r.buffer r.head (sub_u32 r.tail r.head)

  pub length-contents : (r : AtomicMove A) → length (contents r) ≡ sub_u32 r.tail r.head
  length-contents r = length-window d size r.buffer r.head (sub_u32 r.tail r.head)

  abbrev pub stored : A → AtomicMove A → AtomicMove A
  stored x r = record r {
    enqueuer_tail = add_u32 r.tail 1;
    tail = add_u32 r.tail 1;
    buffer = set r.buffer (r.tail % size) x;
  }

  pub publish_room :
      (x : A) (r : AtomicMove A)
      → r.enqueuer_tail ≡ r.tail
      → ltb (sub_u32 r.tail r.head) (size % 2 ^ 32) ≡ true
      → publish_movable d size x r
        ≡ some ((non_zero_u32 (add_u32 (sub_u32 r.tail r.head) 1), none), stored x r)
  unfolding publish_movable leak_slot_internal leak_slot_loop try_leak_slot publish_leaked_internal
      try_publish_leaked_internal
  publish_room x r quiet room = rw (quiet, room, ◌>>=◌) (ground arith)

  pub publish_full :
      (x : A) (r : AtomicMove A)
      → r.enqueuer_tail ≡ r.tail
      → ltb (sub_u32 r.tail r.head) (size % 2 ^ 32) ≡ false
      → publish_movable d size x r ≡ some ((none, some x), record r { enqueuer_tail = r.tail })
  unfolding publish_movable leak_slot_internal leak_slot_loop try_leak_slot try_unleak_slot_internal
  publish_full x r quiet full = rw (quiet, full, ◌>>=◌) (ground arith)

  abbrev taken : AtomicMove A → AtomicMove A
  taken r = record r { dequeuer_head = add_u32 r.head 1; head = add_u32 r.head 1 }

  release_lem :
      (r : AtomicMove A)
      → release_leaked_internal d size [] r.head r ≡ some (tt, record r { head = add_u32 r.head 1 })
  unfolding release_leaked_internal
  release_lem r = ground arith

  reserve_some :
      (r : AtomicMove A)
      → r.dequeuer_head ≡ r.head
      → is_pos_i32 (sub_u32 r.tail r.head) ≡ true
      → consume_leaking_internal d size [] r
        ≡ some (
          some (record {
            index = r.head % size;
            slot_id = r.head;
            len_before = sub_u32 r.tail r.head;
          }),
          record r { dequeuer_head = add_u32 r.head 1 },
        )
  unfolding consume_leaking_internal consume_leaking_loop try_consume_leaking
  reserve_some r quiet more = rw quiet (ground arith)

  consume_some :
      (r : AtomicMove A)
      → r.dequeuer_head ≡ r.head
      → is_pos_i32 (sub_u32 r.tail r.head) ≡ true
      → consume_movable d size r ≡ some (some (get_or r.buffer (r.head % size) d), taken r)
  unfolding consume_movable
  consume_some r quiet more = rw (reserve_some r quiet more, ◌>>=◌) (rw (released, ◌>>=◌) refl)
    where
      released :
          release_leaked_internal d size [] r.head (record r { dequeuer_head = add_u32 r.head 1 })
          ≡ some (tt, taken r)
      released = release_lem (record r { dequeuer_head = add_u32 r.head 1 })

  consume_none :
      (r : AtomicMove A)
      → r.dequeuer_head ≡ r.head
      → is_pos_i32 (sub_u32 r.tail r.head) ≡ false
      → consume_movable d size r ≡ some (none, record r { dequeuer_head = r.head })
  unfolding consume_movable consume_leaking_internal consume_leaking_loop try_consume_leaking
  consume_none r quiet done = rw (quiet, done, ◌>>=◌) (ground arith)

  module _ (sz : IsRingSize size) where
    -- With nothing else under way, `publish_movable` returns: it adds the element at the end and
    -- reports the new length, or hands the element back when the queue is full. Nothing stays reserved.
    pub publish_movable_lem :
        (x : A) (r : AtomicMove A)
        → IsQuiet size r
        → (r' : AtomicMove A) × (publish_movable d size x r
            ≡ some ((Fifo.publish size x (contents r)).0, r'))
          × (contents r' ≡ (Fifo.publish size x (contents r)).1)
          × IsQuiet size r'
    unfolding Fifo.publish
    publish_movable_lem x r v = elim (dec_lt (sub_u32 r.tail r.head) size) [
      | yes room ↦ (
        stored x r,
        publish_room x r v.no_producer (ground (arith, ring_size_bounds sz))
            ∙ (ground (arith, ring_size_bounds sz, length-contents r)),
        ground (
          arith,
          ring_size_bounds sz,
          length-contents r,
          tail_index d size sz r.head r.tail,
          window-set_end d size r.buffer x (sub_u32 r.tail r.head) r.head,
        ),
        ground (arith, ring_size_bounds sz, length-set r.buffer (r.tail % size) x),
      )
      | no full ↦ (
        record r { enqueuer_tail = r.tail },
        publish_full x r v.no_producer (ground (arith, ring_size_bounds sz))
            ∙ (ground (arith, ring_size_bounds sz, length-contents r)),
        ground (arith, length-contents r),
        ground arith,
      )
    ]

    contents-cons :
        (r : AtomicMove A)
        → 0 < sub_u32 r.tail r.head
        → r.tail < 2 ^ 32
        → r.head < 2 ^ 32
        → contents r ≡ get_or r.buffer (r.head % size) d ∷ contents (taken r)
    contents-cons r more tail_word head_word =
        window_of_pos d size r.buffer r.head (sub_u32 r.tail r.head) more
        ∙ ap (λ q. get_or r.buffer (r.head % size) d ∷ q)
            (window_cong d size r.buffer (sub_u32 r.tail r.head - 1) (r.head + 1) (add_u32 r.head 1)
                (sym (mod-u32-mod (r.head + 1) sz))
              ∙ ap (window d size r.buffer (add_u32 r.head 1)) (omega arith))

    -- With nothing else under way, `consume_movable` returns: it takes the oldest element, or answers
    -- that there is none. Nothing stays reserved.
    pub consume_movable_lem :
        (r : AtomicMove A)
        → IsQuiet size r
        → (r' : AtomicMove A) × (consume_movable d size r
            ≡ some ((Fifo.consume (contents r)).0, r'))
          × (contents r' ≡ (Fifo.consume (contents r)).1)
          × IsQuiet size r'
    unfolding Fifo.consume
    consume_movable_lem r v = elim (dec_lt 0 (sub_u32 r.tail r.head)) [
      | yes more ↦ (
        taken r,
        consume_some r v.no_consumer (ground (arith, ring_size_bounds sz))
            ∙ rw (contents-cons r more v.tail_word v.head_word) refl,
        rw (contents-cons r more v.tail_word v.head_word),
        ground (arith, ring_size_bounds sz),
      )
      | no done ↦ (
        record r { dequeuer_head = r.head },
        consume_none r v.no_consumer (ground arith)
            ∙ rw (window_of_zero d size r.buffer r.head (sub_u32 r.tail r.head) (omega arith)) refl,
        rw (window_of_zero d size r.buffer r.head (sub_u32 r.tail r.head) (omega arith)),
        ground arith,
      )
    ]

    -- The slices of `peek_remaining`, in order, are the published elements.
    pub peek_remaining_lem :
        (r : AtomicMove A)
        → IsQuiet size r
        → (peek_remaining d size r).0 ++ (peek_remaining d size r).1 ≡ contents r
    unfolding peek_remaining
    peek_remaining_lem r v = elim (Bool-cases (r.head == r.tail)) [
      | inl same ↦
          rw same
            (sym (window_of_zero d size r.buffer r.head (sub_u32 r.tail r.head) (ground arith)))
      | inr differ ↦ rw differ (
          sym (
            window_of_slices d size r.buffer r.head (sub_u32 r.tail r.head) r.tail v.shape
              (ground arith) v.bounded
              (tail_index d size sz r.head r.tail v.head_word v.tail_word)))
    ]
