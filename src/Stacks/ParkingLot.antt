-- ===== src/Stacks/ParkingLot.antt =====
-- Stack of src/ogre_std/ogre_stacks/non_blocking_parking_lot_stack.rs: an array and the number of its
-- elements, under a mutex of the parking_lot crate. A lock that is never given has the result `none`.
pub mod Refine
use reactive_mutiny.Common.{
  ℕ, ◌+◌, ◌%◌, ◌^◌, ◌≡◌, Bool, true, false, Option, none, some, List, get_or, set, replicate, leb,
  ◌==◌, if◌then◌else◌, add_u32, sub_u32, Run,
}

-- What the stack uses of `parking_lot::RawMutex`: a free mutex can be locked, and is free again once it
-- is unlocked.
pub record RawMutex : Type 1 where
  pub Guard : Type 0
  pub IsFree : Guard → Type 0
  pub init : Guard
  pub init_free : IsFree init
  pub lock : Guard → Option Guard
  pub unlock : Guard → Guard
  pub locks : (g : Guard) → IsFree g → (g' : Guard) × (lock g ≡ some g') × IsFree (unlock g')

pub record Stack {ℓ} (A : Type ℓ) (m : RawMutex) : Type ℓ where
  pub buffer : List A
  pub head : ℕ
  pub concurrency_guard : m.Guard
  pub push_count : ℕ
  pub pop_count : ℕ
  pub push_collisions : ℕ
  pub pop_collisions : ℕ
  pub push_full_count : ℕ
  pub pop_empty_count : ℕ

-- `zeroed` is the element whose bytes are zero, `size` is BUFFER_SIZE and `metrics` is METRICS.
module _ {ℓ} {A : Type ℓ} (m : RawMutex) (zeroed : A) (size : ℕ) (metrics : Bool) where
  abbrev pub new : Stack A m
  new = record {
    buffer = replicate size zeroed;
    concurrency_guard = m.init;
    head = 0;
    push_count = 0;
    pop_count = 0;
    push_collisions = 0;
    pop_collisions = 0;
    push_full_count = 0;
    pop_empty_count = 0;
  }

  -- `+= 1` on a counter of 64 bits, if metrics are kept
  abbrev pub counted : ℕ → ℕ
  counted n = if metrics then (n + 1) % 2 ^ 64 else n

  unfoldable pub push : A → Run (Stack A m) Bool
  push element s = elim (m.lock s.concurrency_guard) [
    | none ↦ none
    | some guard ↦
        if leb (size % 2 ^ 32) s.head
        then some (
          false,
          record s {
            push_full_count = counted s.push_full_count;
            concurrency_guard = m.unlock guard;
          },
        )
        else some (
          true,
          record s {
            buffer = set s.buffer s.head element;
            head = add_u32 s.head 1;
            push_count = counted s.push_count;
            concurrency_guard = m.unlock guard;
          },
        )
  ]

  unfoldable pub pop : Run (Stack A m) (Option A)
  pop s = elim (m.lock s.concurrency_guard) [
    | none ↦ none
    | some guard ↦
        if s.head == 0
        then some (
          none,
          record s {
            pop_empty_count = counted s.pop_empty_count;
            concurrency_guard = m.unlock guard;
          },
        )
        else some (
          some (get_or s.buffer (sub_u32 s.head 1) zeroed),
          record s {
            head = sub_u32 s.head 1;
            pop_count = counted s.pop_count;
            concurrency_guard = m.unlock guard;
          },
        )
  ]

  abbrev pub len : Stack A m → ℕ
  len s = s.head

  abbrev pub is_empty : Stack A m → Bool
  is_empty s = s.head == 0
