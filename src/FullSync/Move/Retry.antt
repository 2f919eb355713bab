-- ===== src/FullSync/Move/Retry.antt =====
-- FullSyncMove.publish: filling a slot in place, and trying again while the queue is full.
use mathlib.Core.Path.{subst}
use native.Mathlib.Decide.{dec_lt}
use reactive_mutiny.Common.{
  refl, sym, ap, lt→ltb, le→not_ltb, ℕ, ◌+◌, ◌%◌, ◌^◌, ◌<◌, ◌≡◌, inl, inr, ◌∙◌, true, false, Option,
  none, some, List, [], ◌∷◌, ◌++◌, arith, length, set, get_or, length-set, sub_u32, add_u32,
  IsRingSize, ring_size_bounds, ltb, Bool-cases, ◌>>=◌, if◌then◌else◌,
}
use reactive_mutiny.Ring.{window-set_end}
use reactive_mutiny.FullSync.Move.{FullSyncMove, publish}
use reactive_mutiny.FullSync.Move.Refine.{IsReady, contents, length-contents, tail_index}

module _ {ℓ} {A : Type ℓ} (d : A) (size : ℕ) where
  -- The slot at the tail, as the setter finds it.
  abbrev pub next_slot : FullSyncMove A → A
  next_slot r = get_or r.buffer (r.tail % size) d

  abbrev pub stored : (A → A) → FullSyncMove A → (Option (A → A) × Option ℕ) × FullSyncMove A
  stored setter r = (
    (none, some (add_u32 (sub_u32 r.tail r.head) 1)),
    record r {
      tail = add_u32 r.tail 1;
      buffer = set r.buffer (r.tail % size) (setter (next_slot r));
      concurrency_guard = false;
    },
  )

  -- What other threads do between two rounds keeps the queue ready.
  abbrev pub AllKeepReady : List (FullSyncMove A → FullSyncMove A) → Type ℓ
  AllKeepReady [] = Unit
  AllKeepReady (others ∷ reports) =
      ((r : FullSyncMove A) → IsReady size r → IsReady size (others r)) × AllKeepReady reports

  pub publish_last :
      (setter : A → A) (r : FullSyncMove A)
      → r.concurrency_guard ≡ false
      → publish d size setter [] r ≡ (
          if ltb (sub_u32 r.tail r.head) (size % 2 ^ 32)
          then some (stored setter r)
          else some ((some setter, none), record r { concurrency_guard = false }))
  unfolding publish
  publish_last setter r free = rw (free, publish) (ground arith)

  publish_again :
      (setter : A → A) (others : FullSyncMove A → FullSyncMove A)
      (reports : List (FullSyncMove A → FullSyncMove A)) (r : FullSyncMove A)
      → r.concurrency_guard ≡ false
      → publish d size setter (others ∷ reports) r ≡ (
          if ltb (sub_u32 r.tail r.head) (size % 2 ^ 32)
          then some (stored setter r)
          else publish d size setter reports (others (record r { concurrency_guard = false })))
  unfolding publish
  publish_again setter others reports r free =
      elim (Bool-cases (ltb (sub_u32 r.tail r.head) (size % 2 ^ 32))) [
        | inl room ↦ rw (free, publish) (rw (room, ◌>>=◌))
        | inr full ↦ rw (free, publish) (rw (full, ◌>>=◌))
      ]

  -- The queue at the round in which `publish` ends: the first one in which the queue has room, or the
  -- last one. After a round without room, others change the queue, which the round left as it was.
  abbrev pub turn : List (FullSyncMove A → FullSyncMove A) → FullSyncMove A → FullSyncMove A
  turn [] r = r
  turn (others ∷ reports) r =
      let next = turn reports (others r) in
      if ltb (length (contents d size r)) size then r else next

  -- How `publish` ends on a queue: the element that the setter made of the content of the slot at the tail
  -- comes last and the new length is reported, or the queue is full and stays as it is, and the setter is
  -- handed back.
  pub data Settled (setter : A → A) (before : FullSyncMove A)
      : Option (A → A) × Option ℕ → FullSyncMove A → Type ℓ where
    placed :
        (after : FullSyncMove A)
        → length (contents d size before) < size
        → contents d size after ≡ contents d size before ++ (setter (next_slot before) ∷ [])
        → Settled setter before (none, some (length (contents d size before) + 1)) after
    refused :
        (after : FullSyncMove A)
        → length (contents d size before) ≡ size
        → contents d size after ≡ contents d size before
        → Settled setter before (some setter, none) after

  unlocked :
      (r : FullSyncMove A)
      → r.concurrency_guard ≡ false
      → record r { concurrency_guard = false } ≡ r
  unlocked r free = ap (λ b. record r { concurrency_guard = b }) (sym free)

  module _ (sz : IsRingSize size) where
    in_u32 : (n : ℕ) → n < size → ltb n (size % 2 ^ 32) ≡ true
    in_u32 n lt = ground (arith, ring_size_bounds sz)

    not_in_u32 : (n : ℕ) → ¬ (n < size) → ltb n (size % 2 ^ 32) ≡ false
    not_in_u32 n full = ground (arith, ring_size_bounds sz)

    stored-Settled :
        (setter : A → A) (r : FullSyncMove A)
        → IsReady size r
        → sub_u32 r.tail r.head < size
        → Settled setter r (stored setter r).0 (stored setter r).1
          × IsReady size (stored setter r).1
    stored-Settled setter r v room = (
      subst (λ n. Settled setter r (none, some n) (stored setter r).1) counted
          (placed (stored setter r).1 (omega (arith, length-contents d size r)) grown),
      ground
          (arith, ring_size_bounds sz, length-set r.buffer (r.tail % size) (setter (next_slot r))),
    )
      where
        counted : length (contents d size r) + 1 ≡ add_u32 (sub_u32 r.tail r.head) 1
        counted = omega (arith, length-contents d size r, ring_size_bounds sz)

        grown :
            contents d size (stored setter r).1 ≡ contents d size r ++ (setter (next_slot r) ∷ [])
        grown = ground (
          arith,
          ring_size_bounds sz,
          tail_index d size sz r.head r.tail,
          window-set_end d size r.buffer (setter (next_slot r)) (sub_u32 r.tail r.head) r.head,
        )

    -- Whatever other threads do between its rounds, as long as they keep the queue ready, `publish` returns
    -- with the lock free. It acts on the queue as it stands at the first round in which there is room, where
    -- it stores what the setter makes of the slot as the last element and changes no other; if no round
    -- has room, the queue of the last round keeps its elements and the setter comes back.
    pub publish_settles :
        (setter : A → A) (reports : List (FullSyncMove A → FullSyncMove A)) (r : FullSyncMove A)
        → AllKeepReady reports
        → IsReady size r
        → (out : Option (A → A) × Option ℕ) × (r' : FullSyncMove A) × (publish d size setter reports
              r
            ≡ some (out, r'))
          × Settled setter (turn reports r) out r'
          × IsReady size r'
    publish_settles setter [] r keep v = elim (dec_lt (sub_u32 r.tail r.head) size) [
      | yes room ↦ (
        (stored setter r).0,
        (stored setter r).1,
        publish_last setter r v.free ∙ rw (in_u32 (sub_u32 r.tail r.head) room),
        (stored-Settled setter r v room).0,
        (stored-Settled setter r v room).1,
      )
      | no full ↦ (
        (some setter, none),
        record r { concurrency_guard = false },
        publish_last setter r v.free ∙ rw (not_in_u32 (sub_u32 r.tail r.head) full),
        refused (record r { concurrency_guard = false })
            (omega (arith, length-contents d size r, v.bounded)) refl,
        ground arith,
      )
    ]
    publish_settles setter (others ∷ reports) r keep v =
        let later = publish_settles setter reports (others r) keep.1 (keep.0 r v) in
        elim (dec_lt (sub_u32 r.tail r.head) size) [
          | yes room ↦
              let first : ltb (length (contents d size r)) size ≡ true =
                lt→ltb _ _ (omega (arith, length-contents d size r, room)) in
              (
                (stored setter r).0,
                (stored setter r).1,
                publish_again setter others reports r v.free
                    ∙ rw (in_u32 (sub_u32 r.tail r.head) room),
                rw first (stored-Settled setter r v room).0,
                (stored-Settled setter r v room).1,
              )
          | no full ↦
              let not_yet : ltb (length (contents d size r)) size ≡ false =
                le→not_ltb _ _ (omega (arith, length-contents d size r, full)) in
              (
                later.0,
                later.1,
                publish_again setter others reports r v.free
                    ∙ rw (not_in_u32 (sub_u32 r.tail r.head) full) (
                        ap (λ q. publish d size setter reports (others q)) (unlocked r v.free)
                        ∙ later.2),
                rw not_yet later.3,
                later.4,
              )
        ]
