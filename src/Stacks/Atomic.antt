-- ===== src/Stacks/Atomic.antt =====
-- Stack of src/ogre_std/ogre_stacks/non_blocking_atomic_stack.rs: an array and the number of its elements,
-- under a flag that a thread takes by swapping `true` into it. A push or a pop whose flag nobody gives
-- back has the result `none`.
pub mod Refine
use reactive_mutiny.Common.{
  ℕ, ◌+◌, ◌-◌, ◌%◌, ◌^◌, Bool, true, false, Option, none, some, List, [], ◌∷◌, get_or, set,
  replicate, leb, ◌==◌, if◌then◌else◌, add_u32, sub_u32, Run,
}

pub record Stack {ℓ} (A : Type ℓ) : Type ℓ where
  pub head : ℕ
  pub buffer : List A
  pub flag : Bool
  pub push_count : ℕ
  pub pop_count : ℕ
  pub push_collisions : ℕ
  pub pop_collisions : ℕ
  pub push_full_count : ℕ
  pub pop_empty_count : ℕ

-- `zeroed` is the element whose bytes are zero, `size` is BUFFER_SIZE and `metrics` is METRICS.
module _ {ℓ} {A : Type ℓ} (zeroed : A) (size : ℕ) (metrics : Bool) where
  abbrev pub new : Stack A
  new = record {
    head = 0;
    buffer = replicate size zeroed;
    flag = false;
    push_count = 0;
    pop_count = 0;
    push_collisions = 0;
    pop_collisions = 0;
    push_full_count = 0;
    pop_empty_count = 0;
  }

  -- `fetch_add(1)` on a counter of 64 bits, if metrics are kept
  abbrev pub counted : ℕ → ℕ
  counted n = if metrics then (n + 1) % 2 ^ 64 else n

  -- What `push` does once it has the flag.
  pub push_locked : A → Stack A → Bool × Stack A
  push_locked element s =
      if leb (size % 2 ^ 32) s.head
      then (false, record s { flag = false; push_full_count = counted s.push_full_count })
      else (
        true,
        record s {
          buffer = set s.buffer s.head element;
          head = add_u32 s.head 1;
          flag = false;
          push_count = counted s.push_count;
        },
      )

  -- The list holds what other threads do after each round that found the flag taken.
  pub push : List (Stack A → Stack A) → A → Run (Stack A) Bool
  unfolding push_locked
  push [] element s = if s.flag then none else some (push_locked element (record s { flag = true }))
  push (others ∷ rounds) element s =
      let later =
        push rounds element (others (record s { push_collisions = counted s.push_collisions })) in
      if s.flag then later else some (push_locked element (record s { flag = true }))

  -- What `pop` does once it has the flag.
  pub pop_locked : Stack A → Option A × Stack A
  pop_locked s =
      if s.head == 0
      then (none, record s { flag = false; pop_empty_count = counted s.pop_empty_count })
      else (
        some (get_or s.buffer (sub_u32 s.head 1) zeroed),
        record s { head = sub_u32 s.head 1; flag = false; pop_count = counted s.pop_count },
      )

  pub pop : List (Stack A → Stack A) → Run (Stack A) (Option A)
  unfolding pop_locked
  pop [] s = if s.flag then none else some (pop_locked (record s { flag = true }))
  pop (others ∷ rounds) s =
      let later = pop rounds (others (record s { pop_collisions = counted s.pop_collisions })) in
      if s.flag then later else some (pop_locked (record s { flag = true }))

  abbrev pub len : Stack A → ℕ
  len s = s.head

  abbrev pub is_empty : Stack A → Bool
  is_empty s = s.head == 0
