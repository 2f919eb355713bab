-- ===== src/Atomic/Move/Retry.antt =====
-- AtomicMove.publish: filling a slot in place, and trying again while the queue is full.
use mathlib.Core.Path.{subst}
use native.Mathlib.Decide.{dec_lt}
use reactive_mutiny.Common.{
  ℕ, ◌+◌, ◌%◌, ◌^◌, ◌<◌, ◌≡◌, inl, inr, refl, ap, ◌∙◌, true, false, Option, none, some, List, [],
  ◌∷◌, ◌++◌, arith, length, set, get_or, length-set, sub_u32, add_u32, IsRingSize, ring_size_bounds,
  ltb, Bool-cases, ◌>>=◌, if◌then◌else◌, sym, lt→ltb, le→not_ltb,
}
use reactive_mutiny.Ring.{window-set_end}
use reactive_mutiny.FullSync.Move.Refine.{tail_index}
use reactive_mutiny.Atomic.Move.{
  AtomicMove, Leaked, Round, Attempt, reserved, given_back, spinning, try_unleak_slot_internal,
  try_leak_slot, leak_slot_loop, leak_slot_internal, try_publish_leaked_internal,
  publish_leaked_internal, publish,
}
use reactive_mutiny.Atomic.Move.Refine.{IsQuiet, contents, length-contents}

module _ {ℓ} {A : Type ℓ} (d : A) (size : ℕ) where
  abbrev pub next_slot : AtomicMove A → A
  next_slot r = get_or r.buffer (r.tail % size) d

  abbrev pub filled : (A → A) → AtomicMove A → AtomicMove A
  filled setter r = record r {
    enqueuer_tail = add_u32 r.tail 1;
    tail = add_u32 r.tail 1;
    buffer = set r.buffer (r.tail % size) (setter (next_slot r));
  }

  -- What other threads do between two rounds, to the end of their operations.
  abbrev pub AllKeepQuiet : List (Round A) → Type ℓ
  AllKeepQuiet [] = Unit
  AllKeepQuiet (round ∷ rounds) =
      ((r : AtomicMove A) → IsQuiet size r → IsQuiet size (round.others r)) × AllKeepQuiet rounds

  pub reserve_room :
      (rounds : List (Round A)) (r : AtomicMove A)
      → r.enqueuer_tail ≡ r.tail
      → ltb (sub_u32 r.tail r.head) (size % 2 ^ 32) ≡ true
      → leak_slot_internal d size rounds r
        ≡ some (
          some (record {
            index = r.tail % size;
            slot_id = r.tail;
            len_before = sub_u32 r.tail r.head;
          }),
          record r { enqueuer_tail = add_u32 r.tail 1 },
        )
  unfolding leak_slot_internal leak_slot_loop try_leak_slot
  reserve_room [] r quiet room = rw quiet (ground arith)
  reserve_room (round ∷ rounds) r quiet room = rw quiet (ground arith)

  pub publish_room :
      (setter : A → A) (rounds : List (Round A)) (r : AtomicMove A)
      → r.enqueuer_tail ≡ r.tail
      → ltb (sub_u32 r.tail r.head) (size % 2 ^ 32) ≡ true
      → publish d size setter rounds r
        ≡ some ((none, some (add_u32 (sub_u32 r.tail r.head) 1)), filled setter r)
  unfolding publish publish_leaked_internal try_publish_leaked_internal
  publish_room setter rounds r quiet room =
      rw (reserve_room rounds r quiet room, ◌>>=◌) (ground arith)

  pub publish_last :
      (setter : A → A) (r : AtomicMove A)
      → r.enqueuer_tail ≡ r.tail
      → ltb (sub_u32 r.tail r.head) (size % 2 ^ 32) ≡ false
      → publish d size setter [] r ≡ some ((some setter, none), record r { enqueuer_tail = r.tail })
  unfolding publish leak_slot_internal leak_slot_loop try_leak_slot try_unleak_slot_internal
  publish_last setter r quiet full = rw (quiet, full, ◌>>=◌) (ground arith)

  try_full :
      (r : AtomicMove A)
      → ltb (sub_u32 r.tail r.head) (size % 2 ^ 32) ≡ false
      → try_leak_slot d size r.tail (record r { enqueuer_tail = add_u32 r.tail 1 })
        ≡ (given_back, record r { enqueuer_tail = r.tail })
  unfolding try_leak_slot try_unleak_slot_internal
  try_full r full = ground arith

  reserve_again :
      (round : Round A) (rounds : List (Round A)) (r : AtomicMove A)
      → r.enqueuer_tail ≡ r.tail
      → ltb (sub_u32 r.tail r.head) (size % 2 ^ 32) ≡ false
      → leak_slot_internal d size (round ∷ rounds) r ≡ (
          if round.retry
          then leak_slot_internal d size rounds (round.others (record r { enqueuer_tail = r.tail }))
          else some (none, record r { enqueuer_tail = r.tail }))
  unfolding leak_slot_internal leak_slot_loop
  reserve_again round rounds r quiet full = rw quiet (ap finish (try_full r full))
    where
      finish : Attempt × AtomicMove A → Option (Option Leaked × AtomicMove A)
      finish t = elim t.0 [
        | reserved s ↦ some (some s, t.1)
        | given_back ↦
            if round.retry
            then leak_slot_internal d size rounds (round.others t.1)
            else some (none, t.1)
        | spinning ↦ leak_slot_loop d size rounds r.tail (round.others t.1)
      ]

  publish_again :
      (setter : A → A) (round : Round A) (rounds : List (Round A)) (r : AtomicMove A)
      → r.enqueuer_tail ≡ r.tail
      → ltb (sub_u32 r.tail r.head) (size % 2 ^ 32) ≡ false
      → publish d size setter (round ∷ rounds) r ≡ (
          if round.retry
          then publish d size setter rounds (round.others (record r { enqueuer_tail = r.tail }))
          else some ((some setter, none), record r { enqueuer_tail = r.tail }))
  unfolding publish
  publish_again setter round rounds r quiet full = elim (Bool-cases round.retry) [
    | inl e ↦ rw (reserve_again round rounds r quiet full, e, ◌>>=◌) refl
    | inr e ↦ rw (reserve_again round rounds r quiet full, e, ◌>>=◌) refl
  ]

  -- The queue at the round in which `publish` ends: the first one in which the queue has room, or the
  -- first full one after which no other is asked for.
  abbrev pub turn : List (Round A) → AtomicMove A → AtomicMove A
  turn [] r = r
  turn (round ∷ rounds) r =
      let next = turn rounds (round.others r) in
      if ltb (length (contents d size r)) size then r else if round.retry then next else r

  -- How `publish` ends on a queue: the element that the setter made of the content of the slot at the tail
  -- comes last and the new length is reported, or the queue is full and keeps its elements, and the
  -- setter is handed back.
  pub data Settled (setter : A → A) (before : AtomicMove A)
      : Option (A → A) × Option ℕ → AtomicMove A → Type ℓ where
    placed :
        (after : AtomicMove A)
        → length (contents d size before) < size
        → contents d size after ≡ contents d size before ++ (setter (next_slot before) ∷ [])
        → Settled setter before (none, some (length (contents d size before) + 1)) after
    refused :
        (after : AtomicMove A)
        → length (contents d size before) ≡ size
        → contents d size after ≡ contents d size before
        → Settled setter before (some setter, none) after

  nothing_reserved :
      (r : AtomicMove A) → r.enqueuer_tail ≡ r.tail → record r { enqueuer_tail = r.tail } ≡ r
  nothing_reserved r quiet = ap (λ n. record r { enqueuer_tail = n }) (sym quiet)

  module _ (sz : IsRingSize size) where
    in_u32 : (n : ℕ) → n < size → ltb n (size % 2 ^ 32) ≡ true
    in_u32 n lt = ground (arith, ring_size_bounds sz)

    not_in_u32 : (n : ℕ) → ¬ (n < size) → ltb n (size % 2 ^ 32) ≡ false
    not_in_u32 n full = ground (arith, ring_size_bounds sz)

    abbrev Settles : (A → A) → List (Round A) → AtomicMove A → Type ℓ
    Settles setter rounds r =
        (out : Option (A → A) × Option ℕ) × (r' : AtomicMove A) × (publish d size setter rounds r
          ≡ some (out, r'))
        × Settled setter (turn rounds r) out r'
        × IsQuiet size r'

    filled-Settles :
        (setter : A → A) (rounds : List (Round A)) (r : AtomicMove A)
        → IsQuiet size r
        → sub_u32 r.tail r.head < size
        → Settles setter rounds r
    filled-Settles setter rounds r v room = (
      (none, some (add_u32 (sub_u32 r.tail r.head) 1)),
      filled setter r,
      publish_room setter rounds r v.no_producer (in_u32 (sub_u32 r.tail r.head) room),
      at_turn rounds (
          subst (λ n. Settled setter r (none, some n) (filled setter r)) counted
            (placed (filled setter r) (omega (arith, length-contents d size r)) grown)),
      ground
          (arith, ring_size_bounds sz, length-set r.buffer (r.tail % size) (setter (next_slot r))),
    )
      where
        first : ltb (length (contents d size r)) size ≡ true
        first = lt→ltb _ _ (omega (arith, length-contents d size r, room))

        at_turn :
            (rounds : List (Round A)) {out : Option (A → A) × Option ℕ}
            → Settled setter r out (filled setter r)
            → Settled setter (turn rounds r) out (filled setter r)
        at_turn [] ended = ended
        at_turn (round ∷ rounds) ended = rw first ended

        counted : length (contents d size r) + 1 ≡ add_u32 (sub_u32 r.tail r.head) 1
        counted = omega (arith, length-contents d size r, ring_size_bounds sz)

        grown : contents d size (filled setter r) ≡ contents d size r ++ (setter (next_slot r) ∷ [])
        grown = ground (
          arith,
          ring_size_bounds sz,
          tail_index d size sz r.head r.tail,
          window-set_end d size r.buffer (setter (next_slot r)) (sub_u32 r.tail r.head) r.head,
        )

    -- With nothing else under way, and if other threads leave nothing under way between its rounds,
    -- `publish` returns. It stores one element as the last one of the queue of the first round that has
    -- room, or leaves the full queue of the last round as it is.
    pub publish_lem :
        (setter : A → A) (rounds : List (Round A)) (r : AtomicMove A)
        → AllKeepQuiet rounds
        → IsQuiet size r
        → (out : Option (A → A) × Option ℕ) × (r' : AtomicMove A) × (publish d size setter rounds r
            ≡ some (out, r'))
          × Settled setter (turn rounds r) out r'
          × IsQuiet size r'
    publish_lem setter [] r keep v = elim (dec_lt (sub_u32 r.tail r.head) size) [
      | yes room ↦ filled-Settles setter [] r v room
      | no full ↦ (
        (some setter, none),
        record r { enqueuer_tail = r.tail },
        publish_last setter r v.no_producer (not_in_u32 (sub_u32 r.tail r.head) full),
        refused (record r { enqueuer_tail = r.tail })
            (omega (arith, length-contents d size r, v.bounded)) refl,
        ground arith,
      )
    ]
    publish_lem setter (round ∷ rounds) r keep v =
        let later = publish_lem setter rounds (round.others r) keep.1 (keep.0 r v) in
        elim (dec_lt (sub_u32 r.tail r.head) size) [
          | yes room ↦ filled-Settles setter (round ∷ rounds) r v room
          | no full ↦
              let not_yet : ltb (length (contents d size r)) size ≡ false =
                le→not_ltb _ _ (omega (arith, length-contents d size r, full)) in
              elim (Bool-cases round.retry) [
                | inl e ↦ (
                  later.0,
                  later.1,
                  publish_again setter round rounds r v.no_producer
                        (not_in_u32 (sub_u32 r.tail r.head) full)
                      ∙ rw e (
                          ap (λ q. publish d size setter rounds (round.others q))
                            (nothing_reserved r v.no_producer)
                          ∙ later.2),
                  rw (not_yet, e) later.3,
                  later.4,
                )
                | inr e ↦ (
                  (some setter, none),
                  record r { enqueuer_tail = r.tail },
                  publish_again setter round rounds r v.no_producer
                        (not_in_u32 (sub_u32 r.tail r.head) full)
                      ∙ rw e refl,
                  rw (not_yet, e)
                      (refused (record r { enqueuer_tail = r.tail })
                        (omega (arith, length-contents d size r, full, v.bounded)) refl),
                  ground arith,
                )
              ]
        ]
