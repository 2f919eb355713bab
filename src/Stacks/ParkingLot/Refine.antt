-- ===== src/Stacks/ParkingLot/Refine.antt =====
-- The parking-lot stack against the list of its elements.
use native.Mathlib.Decide.{dec_lt}
use native.Mathlib.Numerals.{add-one}
use reactive_mutiny.Common.{
  ℕ, zero, suc, ◌+◌, ◌^◌, ◌<◌, ◌≤◌, ◌≡◌, refl, ap, ap₂, ◌∙◌, Bool, true, false, Option, none, some,
  List, [], ◌∷◌, arith, length, get_or, set, length-set, get_or-set_self, ltb, leb, lt→ltb,
  le→not_ltb, if◌then◌else◌, add_u32, sub_u32, ◌%◌, ◌==◌,
}
use reactive_mutiny.Stacks.Atomic.Refine.{top_down, length-top_down, top_down-set}
use reactive_mutiny.Stacks.ParkingLot.{RawMutex, Stack, push, pop, counted}

-- The representation invariant, between operations: the mutex is free.
pub record IsFree {ℓ} {A : Type ℓ} (m : RawMutex) (size : ℕ) (s : Stack A m) : Type 0 where
  pub free : m.IsFree s.concurrency_guard
  pub shape : length s.buffer ≡ size
  pub bounded : s.head ≤ size

module _ {ℓ} {A : Type ℓ} (m : RawMutex) (zeroed : A) (size : ℕ) (metrics : Bool) where
  -- The elements, the one on top first.
  abbrev pub contents : Stack A m → List A
  contents s = top_down zeroed s.buffer s.head

  -- With the mutex free, `push` puts the element on top, or answers `false` and changes no element when
  -- all `BUFFER_SIZE` places are taken; it gives the mutex back.
  pub parking_lot_push-contents :
      (x : A) (s : Stack A m)
      → size < 2 ^ 32
      → IsFree m size s
      → (s' : Stack A m) × (push m zeroed size metrics x s
          ≡ some (ltb (length (contents s)) size, s'))
        × (contents s' ≡ (if ltb (length (contents s)) size then x ∷ contents s else contents s))
        × IsFree m size s'
  unfolding push
  parking_lot_push-contents x s word v =
      let (guard, e, back) = m.locks s.concurrency_guard v.free in
      elim (dec_lt s.head size) [
        | yes room ↦
            let below : leb (size % 2 ^ 32) s.head ≡ false = ground (arith, room) in
            let next : add_u32 s.head 1 ≡ s.head + 1 = omega (arith, room) in
            (
              record s {
                buffer = set s.buffer s.head x;
                head = add_u32 s.head 1;
                push_count = counted m zeroed size metrics s.push_count;
                concurrency_guard = m.unlock guard;
              },
              rw (roomy room, push, e, below) refl,
              rw (roomy room, next) (grown room),
              record {
                free = back;
                shape = length-set s.buffer s.head x ∙ v.shape;
                bounded = omega (arith, next, room);
              },
            )
        | no full ↦
            let above : leb (size % 2 ^ 32) s.head ≡ true = ground (arith, full) in
            (
              record s {
                push_full_count = counted m zeroed size metrics s.push_full_count;
                concurrency_guard = m.unlock guard;
              },
              rw (filled full, push, e, above) refl,
              rw (filled full) refl,
              record { free = back; shape = v.shape; bounded = v.bounded },
            )
      ]
    where
      roomy : s.head < size → ltb (length (contents s)) size ≡ true
      roomy room = lt→ltb _ _ (omega (arith, length-top_down zeroed s.buffer s.head))

      filled : (¬ (s.head < size)) → ltb (length (contents s)) size ≡ false
      filled full = le→not_ltb _ _ (omega (arith, full, length-top_down zeroed s.buffer s.head))

      grown : s.head < size → top_down zeroed (set s.buffer s.head x) (s.head + 1) ≡ x ∷ contents s
      grown room =
          ap (top_down zeroed (set s.buffer s.head x)) (add-one s.head)
          ∙ ap₂ (λ y l. y ∷ l) (get_or-set_self s.buffer s.head x zeroed (rw v.shape room))
              (top_down-set zeroed s.buffer s.head x s.head (omega arith))

  -- With the mutex free, `pop` takes the element on top, or answers that there is none; it gives the
  -- mutex back.
  pub parking_lot_pop-contents :
      (s : Stack A m)
      → size < 2 ^ 32
      → IsFree m size s
      → (o : Option A) × (s' : Stack A m) × (pop m zeroed size metrics s ≡ some (o, s'))
        × (contents s ≡ (elim o [ none ↦ [] | some x ↦ x ∷ contents s' ]))
        × ((o ≡ none) → contents s' ≡ [])
        × IsFree m size s'
  unfolding pop
  parking_lot_pop-contents s word v =
      let (guard, e, back) = m.locks s.concurrency_guard v.free in go guard e back s.head refl
    where
      go :
          (guard : m.Guard)
          → m.lock s.concurrency_guard ≡ some guard
          → m.IsFree (m.unlock guard)
          → (n : ℕ) → s.head ≡ n
          → (o : Option A) × (s' : Stack A m) × (pop m zeroed size metrics s ≡ some (o, s'))
            × (contents s ≡ (elim o [ none ↦ [] | some x ↦ x ∷ contents s' ]))
            × ((o ≡ none) → contents s' ≡ [])
            × IsFree m size s'
      go guard e back zero at_zero = (
        none,
        record s {
          pop_empty_count = counted m zeroed size metrics s.pop_empty_count;
          concurrency_guard = m.unlock guard;
        },
        rw (pop, e, at_zero) refl,
        rw at_zero refl,
        λ nothing. rw at_zero refl,
        record { free = back; shape = v.shape; bounded = v.bounded },
      )
      go guard e back (suc n) at_suc =
          let below : sub_u32 s.head 1 ≡ n = omega (arith, at_suc, v.bounded) in
          let more : (s.head == 0) ≡ false = ground (arith, at_suc) in
          (
            some (get_or s.buffer n zeroed),
            record s {
              head = n;
              pop_count = counted m zeroed size metrics s.pop_count;
              concurrency_guard = m.unlock guard;
            },
            rw (pop, e, more, below) refl,
            rw at_suc refl,
            λ something. absurd (ground arith),
            record { free = back; shape = v.shape; bounded = omega (arith, at_suc, v.bounded) },
          )
