-- ===== src/FullSync/Move/Lifecycle.antt =====
-- FullSyncMove: creation, a taken lock, a cancelled slot, and the drop loop.
use reactive_mutiny.Common.{
  take, take-append, length-append, ◌++◌, ◌+◌, ◌-◌, ◌^◌, ℕ, suc, zero, ◌%◌, ◌<◌, ◌≡◌, refl, sym, ap,
  ◌∙◌, true, false, Option, none, some, List, [], ◌∷◌, arith, length, sub_u32, IsRingSize,
  ring_size_bounds, length-replicate,
}
use reactive_mutiny.Fifo
use reactive_mutiny.Ring.{window, length-window, window-append}
use reactive_mutiny.FullSync.Move.{
  FullSyncMove, Leaked, available_elements_count, with_initializer, publish_movable,
  consume_movable, leak_slot_internal, unleak_internal, drop_all,
}
use reactive_mutiny.FullSync.Move.Refine.{IsReady, contents, length-contents, consume_refines}

module _ {ℓ} {A : Type ℓ} (d : A) (size : ℕ) where
  -- A new queue, whatever its slots are filled with, is ready and empty.
  pub with_initializer-IsReady :
      (slot : A)
      → IsReady size (with_initializer d size slot)
        × (contents d size (with_initializer d size slot) ≡ [])
  unfolding with_initializer
  with_initializer-IsReady slot = (ground (arith, length-replicate size slot), refl)

  -- While the lock is taken, an operation waits for it.
  pub locked_blocks :
      (x : A) (r : FullSyncMove A)
      → r.concurrency_guard ≡ true
      → (publish_movable d size x r ≡ none) × (consume_movable d size r ≡ none)
  unfolding publish_movable consume_movable
  locked_blocks x r taken = (rw (taken, publish_movable) refl, rw (taken, consume_movable) refl)

  module _ (sz : IsRingSize size) where
    still-IsReady :
        (r : FullSyncMove A)
        → IsReady size r
        → IsReady size (record r { concurrency_guard = false })
    still-IsReady r v = ground arith

    drop_step :
        (fuel : ℕ) (r r' : FullSyncMove A) (o : Option A)
        → consume_movable d size (record r { concurrency_guard = false }) ≡ some (o, r')
        → drop_all d size (suc fuel) r ≡ (elim o [
          | none ↦ some []
          | some item ↦ elim (drop_all d size fuel r') [
            | none ↦ none
            | some items ↦ some (item ∷ items)
          ]
        ])
    unfolding drop_all
    drop_step fuel r r' none e = rw (e, drop_all)
    drop_step fuel r r' (some x) e = rw (e, drop_all)

    -- The loop of `Drop` ends, and drops the elements that are left, oldest first; a lock left taken
    -- does not stop it.
    pub drop_all-contents :
        (fuel : ℕ) (r : FullSyncMove A)
        → IsReady size (record r { concurrency_guard = false })
        → length (contents d size r) < fuel
        → drop_all d size fuel r ≡ some (contents d size r)
    unfolding Fifo.consume
    drop_all-contents zero r v lt = absurd (omega arith)
    drop_all-contents (suc fuel) r v lt =
        let (r', e, c, v') = consume_refines d size sz (record r { concurrency_guard = false }) v in
        go (contents d size r) refl r' e c (drop_all-contents fuel r' (still-IsReady r' v'))
      where
        go :
            (q : List A)
            → contents d size r ≡ q
            → (r' : FullSyncMove A)
            → consume_movable d size (record r { concurrency_guard = false })
              ≡ some ((Fifo.consume (contents d size r)).0, r')
            → contents d size r' ≡ (Fifo.consume (contents d size r)).1
            → (length (contents d size r') < fuel
                → drop_all d size fuel r' ≡ some (contents d size r'))
            → drop_all d size (suc fuel) r ≡ some (contents d size r)
        go [] eq r' e c ih = drop_step fuel r r' none (rw eq at e) ∙ sym (ap some eq)
        go (x ∷ q) eq r' e c ih =
            drop_step fuel r r' (some x) (rw eq at e)
            ∙ rw (ih shorter) (ap (λ l. some (x ∷ l)) left)
            ∙ sym (ap some eq)
          where
            left : contents d size r' ≡ q
            left = rw eq at c

            shorter : length (contents d size r') < fuel
            shorter = omega (arith, ap length left, ap length eq)

    -- On a ready queue with elements and with room, a slot that is leaked and given back by
    -- `unleak_internal` takes the last element with it: the elements before that one are left, and the lock is free.
    pub unleak_internal_loses :
        (r : FullSyncMove A) (xs : List A) (x : A)
        → IsReady size r
        → length (contents d size r) < size
        → contents d size r ≡ xs ++ (x ∷ [])
        → (s : Leaked) × (r' : FullSyncMove A) × (leak_slot_internal d size [] r
            ≡ some (some s, r'))
          × (contents d size (unleak_internal d size r') ≡ xs)
          × IsReady size (unleak_internal d size r')
    unfolding leak_slot_internal unleak_internal
    unleak_internal_loses r xs x v room has = (
      record { index = r.tail % size; slot_id = r.tail; len_before = sub_u32 r.tail r.head },
      record r { concurrency_guard = true },
      rw (v.free, leak_slot_internal)
          (ground (arith, ring_size_bounds sz, length-contents d size r)),
      ap (window d size r.buffer r.head) fewer
          ∙ sym (take-append first last)
          ∙ ap (λ n. take n (first ++ last)) windowed
          ∙ ap (take (length xs)) (sym all)
          ∙ take-append xs (x ∷ []),
      record {
        free = refl;
        shape = v.shape;
        head_word = v.head_word;
        tail_word = omega arith;
        bounded = omega (arith, fewer, counted, v.bounded);
      },
    )
      where
        counted : sub_u32 r.tail r.head ≡ length xs + 1
        counted = omega (arith, length-contents d size r, ap length has, length-append xs (x ∷ []))

        fewer : sub_u32 (sub_u32 r.tail 1) r.head ≡ length xs
        fewer = omega (arith, counted, v.head_word, v.tail_word)

        first : List A
        first = window d size r.buffer r.head (length xs)

        last : List A
        last = window d size r.buffer (r.head + length xs) 1

        windowed : length first ≡ length xs
        windowed = length-window d size r.buffer r.head (length xs)

        all : xs ++ (x ∷ []) ≡ first ++ last
        all =
            sym has
            ∙ ap (window d size r.buffer r.head) counted
            ∙ window-append d size r.buffer r.head (length xs) 1

    -- On an empty queue, the length becomes that of 2 ^ 32 - 1 elements.
    pub unleak_internal_underflows :
        (r : FullSyncMove A)
        → IsReady size r
        → contents d size r ≡ []
        → (s : Leaked) × (r' : FullSyncMove A) × (leak_slot_internal d size [] r
            ≡ some (some s, r'))
          × (available_elements_count d size (unleak_internal d size r') ≡ 2 ^ 32 - 1)
    unfolding leak_slot_internal unleak_internal available_elements_count
    unleak_internal_underflows r v none_left =
        let zero_left : sub_u32 r.tail r.head ≡ 0 =
          omega (arith, length-contents d size r, ap length none_left) in
        (
          record { index = r.tail % size; slot_id = r.tail; len_before = sub_u32 r.tail r.head },
          record r { concurrency_guard = true },
          rw (v.free, leak_slot_internal) (ground (arith, ring_size_bounds sz, zero_left)),
          omega (arith, zero_left, v.head_word, v.tail_word),
        )
