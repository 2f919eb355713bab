-- ===== src/FullSync/Move/Refine.antt =====
-- FullSyncMove against the bounded queue of its elements.
use native.Mathlib.Decide.{dec_lt}
use reactive_mutiny.Common.{
  ℕ, ◌+◌, ◌-◌, ◌%◌, ◌^◌, ◌<◌, ◌≤◌, ◌≡◌, sym, ap, ◌∙◌, false, none, some, List, ◌∷◌, ◌++◌, arith,
  length, set, get_or, length-set, sub_u32, add_u32, IsRingSize, ring_size_bounds, mod-u32-mod, ltb,
  is_pos_i32, if◌then◌else◌, non_zero_u32, Bool-cases, ◌==◌, inl, inr,
}
use reactive_mutiny.Ring.{
  window, length-window, window_cong, window_of_pos, window_of_zero, window-set_end,
  window_of_slices,
}
use reactive_mutiny.Fifo
use reactive_mutiny.FullSync.Move.{FullSyncMove, publish_movable, consume_movable, peek_remaining}

-- The representation invariant, between operations: the lock is free.
pub record IsReady {ℓ} {A : Type ℓ} (size : ℕ) (r : FullSyncMove A) : Type 0 where
  pub free : r.concurrency_guard ≡ false
  pub shape : length r.buffer ≡ size
  pub head_word : r.head < 2 ^ 32
  pub tail_word : r.tail < 2 ^ 32
  pub bounded : sub_u32 r.tail r.head ≤ size

module _ {ℓ} {A : Type ℓ} (d : A) (size : ℕ) where
  -- The elements, oldest first.
  abbrev pub contents : FullSyncMove A → List A
  contents r = window d size r.buffer r.head (sub_u32 r.tail r.head)

  pub length-contents : (r : FullSyncMove A) → length (contents r) ≡ sub_u32 r.tail r.head
  length-contents r = length-window d size r.buffer r.head (sub_u32 r.tail r.head)

  module _ (sz : IsRingSize size) where
    -- The index of the slot at the tail, counted from the head.
    pub tail_index : (h t : ℕ) → h < 2 ^ 32 → t < 2 ^ 32 → t % size ≡ (h + sub_u32 t h) % size
    tail_index h t hh ht = ap (λ i. i % size) word ∙ mod-u32-mod (h + sub_u32 t h) sz
      where
        word : t ≡ (h + sub_u32 t h) % 2 ^ 32
        word = omega arith

    -- `publish_movable` under a free lock, as one test.
    pub publish_free :
        (x : A) (r : FullSyncMove A)
        → r.concurrency_guard ≡ false
        → publish_movable d size x r ≡ (
            if ltb (sub_u32 r.tail r.head) (size % 2 ^ 32)
            then some (
              (non_zero_u32 (add_u32 (sub_u32 r.tail r.head) 1), none),
              record r {
                tail = add_u32 r.tail 1;
                buffer = set r.buffer (r.tail % size) x;
                concurrency_guard = false;
              },
            )
            else some ((none, some x), record r { concurrency_guard = false }))
    unfolding publish_movable
    publish_free x r free = rw (free, publish_movable) (ground arith)

    -- `publish_movable` adds the element at the end and reports the new length, or hands the element
    -- back when the queue is full; it returns with the lock free.
    pub publish_refines :
        (x : A) (r : FullSyncMove A)
        → IsReady size r
        → (r' : FullSyncMove A) × (publish_movable d size x r
            ≡ some ((Fifo.publish size x (contents r)).0, r'))
          × (contents r' ≡ (Fifo.publish size x (contents r)).1)
          × IsReady size r'
    unfolding Fifo.publish
    publish_refines x r v = elim (dec_lt (sub_u32 r.tail r.head) size) [
      | yes room ↦ (
        record r {
          tail = add_u32 r.tail 1;
          buffer = set r.buffer (r.tail % size) x;
          concurrency_guard = false;
        },
        publish_free x r v.free ∙ (ground (arith, ring_size_bounds sz, length-contents r)),
        ground (
          arith,
          ring_size_bounds sz,
          length-contents r,
          tail_index r.head r.tail,
          window-set_end d size r.buffer x (sub_u32 r.tail r.head) r.head,
        ),
        ground (arith, ring_size_bounds sz, length-set r.buffer (r.tail % size) x),
      )
      | no full ↦ (
        record r { concurrency_guard = false },
        publish_free x r v.free ∙ (ground (arith, ring_size_bounds sz, length-contents r)),
        ground (arith, length-contents r),
        ground arith,
      )
    ]

    consume_free :
        (r : FullSyncMove A)
        → r.concurrency_guard ≡ false
        → consume_movable d size r ≡ (
            if is_pos_i32 (sub_u32 r.tail r.head)
            then some (
              some (get_or r.buffer (r.head % size) d),
              record r { head = add_u32 r.head 1; concurrency_guard = false },
            )
            else some (none, record r { concurrency_guard = false }))
    unfolding consume_movable
    consume_free r free = rw (free, consume_movable) (ground arith)

    contents-cons :
        (r : FullSyncMove A)
        → IsReady size r
        → 0 < sub_u32 r.tail r.head
        → contents r
          ≡ get_or r.buffer (r.head % size) d
            ∷ contents (record r { head = add_u32 r.head 1; concurrency_guard = false })
    contents-cons r v more =
        window_of_pos d size r.buffer r.head (sub_u32 r.tail r.head) more
        ∙ ap (λ q. get_or r.buffer (r.head % size) d ∷ q)
            (window_cong d size r.buffer (sub_u32 r.tail r.head - 1) (r.head + 1) (add_u32 r.head 1)
                (sym (mod-u32-mod (r.head + 1) sz))
              ∙ ap (window d size r.buffer (add_u32 r.head 1)) (omega arith))

    -- `consume_movable` takes the oldest element, or answers that there is none; it returns with the
    -- lock free.
    pub consume_refines :
        (r : FullSyncMove A)
        → IsReady size r
        → (r' : FullSyncMove A) × (consume_movable d size r
            ≡ some ((Fifo.consume (contents r)).0, r'))
          × (contents r' ≡ (Fifo.consume (contents r)).1)
          × IsReady size r'
    unfolding Fifo.consume
    consume_refines r v = elim (dec_lt 0 (sub_u32 r.tail r.head)) [
      | yes more ↦ (
        record r { head = add_u32 r.head 1; concurrency_guard = false },
        consume_free r v.free ∙ rw (contents-cons r v more) (ground (arith, ring_size_bounds sz)),
        rw (contents-cons r v more),
        ground (arith, ring_size_bounds sz),
      )
      | no done ↦ (
        record r { concurrency_guard = false },
        consume_free r v.free
            ∙ rw (window_of_zero d size r.buffer r.head (sub_u32 r.tail r.head) (omega arith))
                (ground arith),
        rw (window_of_zero d size r.buffer r.head (sub_u32 r.tail r.head) (omega arith)),
        ground arith,
      )
    ]

    -- The slices of `peek_remaining`, in order, are the elements.
    pub peek_remaining-contents :
        (r : FullSyncMove A)
        → IsReady size r
        → (peek_remaining d size r).0 ++ (peek_remaining d size r).1 ≡ contents r
    unfolding peek_remaining
    peek_remaining-contents r v = elim (Bool-cases (r.head == r.tail)) [
      | inl same ↦
          rw same
            (sym (window_of_zero d size r.buffer r.head (sub_u32 r.tail r.head) (ground arith)))
      | inr differ ↦ rw differ (
          sym (
            window_of_slices d size r.buffer r.head (sub_u32 r.tail r.head) r.tail v.shape
              (ground arith) v.bounded (tail_index r.head r.tail v.head_word v.tail_word)))
    ]
