-- ===== src/Atomic/Move.antt =====
-- AtomicMove of src/ogre_std/ogre_queues/atomic/atomic_move.rs: a ring buffer whose producers and
-- consumers reserve a slot with a fetch_add, and make it public, or free again, in the order of the
-- reservations. Every atomic operation is one step. A loop that would spin for ever, since nobody
-- else moves a counter, has the result `none`.
pub mod Refine
pub mod Container
pub mod Retry
pub mod Drops
pub mod Indexes
use reactive_mutiny.Common.{
  ℕ, suc, zero, ◌+◌, ◌*◌, ◌/◌, ◌%◌, ◌^◌, Bool, true, false, Option, none, some, List, [], ◌∷◌,
  get_or, set, replicate, ltb, ◌==◌, if◌then◌else◌, add_u32, sub_u32, is_pos_i32, Run, ◌>>=◌,
  non_zero_u32,
}
use reactive_mutiny.Ring.{peek_slices}

pub record AtomicMove {ℓ} (A : Type ℓ) : Type ℓ where
  pub head : ℕ
  pub enqueuer_tail : ℕ
  pub buffer : List A
  pub dequeuer_head : ℕ
  pub tail : ℕ

-- What a reservation hands out: the index of a slot in the buffer, its id, and the length before.
pub record Leaked : Type 0 where
  pub index : ℕ
  pub slot_id : ℕ
  pub len_before : ℕ

-- What follows a round of a loop that did not find a slot: what the reporting function answers if it
-- is asked, and what other threads do before the next round.
pub record Round {ℓ} (A : Type ℓ) : Type ℓ where
  pub retry : Bool
  pub others : AtomicMove A → AtomicMove A

-- `u32::max(1, n)`
abbrev pub max_one : ℕ → ℕ
max_one n = if n == 0 then 1 else n

-- How one round of a reserving loop ends.
pub data Attempt : Type 0 where
  reserved : Leaked → Attempt
  given_back : Attempt
  spinning : Attempt

-- `d` is `SlotType::default()`, and `size` is BUFFER_SIZE.
module _ {ℓ} {A : Type ℓ} (d : A) (size : ℕ) where
  unfoldable pub with_initializer : A → AtomicMove A
  with_initializer slot = record {
    head = 0;
    enqueuer_tail = 0;
    buffer = replicate size slot;
    dequeuer_head = 0;
    tail = 0;
  }

  pub new : AtomicMove A
  unfolding with_initializer
  new = with_initializer d

  pub available_elements_count : AtomicMove A → ℕ
  available_elements_count r = sub_u32 r.tail r.head

  pub try_unleak_slot_internal : ℕ → AtomicMove A → Bool × AtomicMove A
  try_unleak_slot_internal slot_id r =
      if r.enqueuer_tail == add_u32 slot_id 1
      then (true, record r { enqueuer_tail = slot_id })
      else (false, r)

  pub try_leak_slot : ℕ → AtomicMove A → Attempt × AtomicMove A
  unfolding try_unleak_slot_internal
  try_leak_slot slot_id r =
      let len_before = sub_u32 slot_id r.head in
      let (unleaked, r') = try_unleak_slot_internal slot_id r in
      if ltb len_before (size % 2 ^ 32)
      then (
        reserved (record { index = slot_id % size; slot_id = slot_id; len_before = len_before }),
        r,
      )
      else ((if unleaked then given_back else spinning), r')

  -- The loop of `leak_slot_internal`, with the id that was reserved. Past the end of the list the
  -- reporting function answers `false`, and nobody else acts.
  pub leak_slot_loop : List (Round A) → ℕ → Run (AtomicMove A) (Option Leaked)
  unfolding try_leak_slot
  leak_slot_loop [] slot_id r =
      let (attempt, r') = try_leak_slot slot_id r in
      elim attempt [
        | reserved s ↦ some (some s, r')
        | given_back ↦ some (none, r')
        | spinning ↦ none
      ]
  leak_slot_loop (round ∷ rounds) slot_id r =
      let (attempt, r') = try_leak_slot slot_id r in
      elim attempt [
        | reserved s ↦ some (some s, r')
        | given_back ↦
            let next = round.others r' in
            let again =
              leak_slot_loop rounds next.enqueuer_tail
                (record next { enqueuer_tail = add_u32 next.enqueuer_tail 1 }) in
            if round.retry then again else some (none, r')
        | spinning ↦ leak_slot_loop rounds slot_id (round.others r')
      ]

  pub leak_slot_internal : List (Round A) → Run (AtomicMove A) (Option Leaked)
  unfolding leak_slot_loop
  leak_slot_internal rounds r =
      leak_slot_loop rounds r.enqueuer_tail (record r { enqueuer_tail = add_u32 r.enqueuer_tail 1 })

  pub try_publish_leaked_internal : ℕ → AtomicMove A → Bool × AtomicMove A
  try_publish_leaked_internal slot_id r =
      if r.tail == slot_id then (true, record r { tail = add_u32 slot_id 1 }) else (false, r)

  -- The loop of `try_publish_leaked_internal_index`, with fuel for its rounds: the answer is the number
  -- of elements that the code reports, or `none` where the caller should try again.
  pub publish_index_loop : ℕ → ℕ → ℕ → Run (AtomicMove A) (Option ℕ)
  publish_index_loop zero slot_index slot_id r = none
  publish_index_loop (suc fuel) slot_index slot_id r =
      let again = publish_index_loop fuel slot_index (slot_index + (r.tail / size) * size) r in
      if r.tail == slot_id
      then some
          (non_zero_u32 (max_one (sub_u32 r.tail r.head)), record r { tail = add_u32 slot_id 1 })
      else if ltb (slot_id / size) (r.tail / size)
      then again
      else some (none, r)

  pub try_publish_leaked_internal_index : ℕ → Run (AtomicMove A) (Option ℕ)
  unfolding publish_index_loop
  try_publish_leaked_internal_index slot_index = publish_index_loop 2 slot_index slot_index

  -- The loop of `try_unleak_slot_index_internal`, with fuel for its rounds. Its weak exchange fails only
  -- where the values differ.
  pub unleak_index_loop : ℕ → ℕ → ℕ → Run (AtomicMove A) Bool
  unleak_index_loop zero slot_index slot_id r = none
  unleak_index_loop (suc fuel) slot_index slot_id r =
      let last = sub_u32 r.enqueuer_tail 1 in
      let again = unleak_index_loop fuel slot_index (slot_index + (last / size) * size) r in
      if r.enqueuer_tail == add_u32 slot_id 1
      then some (true, record r { enqueuer_tail = slot_id })
      else if ltb (slot_id / size) (last / size)
      then again
      else some (false, r)

  pub try_unleak_slot_index_internal : ℕ → Run (AtomicMove A) Bool
  unfolding unleak_index_loop
  try_unleak_slot_index_internal slot_index = unleak_index_loop 2 slot_index slot_index

  -- The list holds what other threads do after each failed round.
  pub publish_leaked_internal :
      List (AtomicMove A → AtomicMove A) → ℕ → Run (AtomicMove A) (Unit {0})
  unfolding try_publish_leaked_internal
  publish_leaked_internal [] slot_id r =
      let (done, r') = try_publish_leaked_internal slot_id r in
      elim done [ true ↦ some (tt, r') | false ↦ none ]
  publish_leaked_internal (others ∷ rounds) slot_id r =
      let (done, r') = try_publish_leaked_internal slot_id r in
      elim done [
        | true ↦ some (tt, r')
        | false ↦ publish_leaked_internal rounds slot_id (others r')
      ]

  pub publish_movable : A → Run (AtomicMove A) (Option ℕ × Option A)
  unfolding leak_slot_internal publish_leaked_internal
  publish_movable item = do
    slot ← leak_slot_internal []
    elim slot [
      | some s ↦ λ r.
          (publish_leaked_internal [] s.slot_id >>= λ _ r'.
          some ((non_zero_u32 (add_u32 s.len_before 1), none), r'))
            (record r { buffer = set r.buffer s.index item })
      | none ↦ λ r. some ((none, some item), r)
    ]

  -- The setter back if nothing was published, and what `report_len_after_enqueueing_fn` was told.
  pub publish : (A → A) → List (Round A) → Run (AtomicMove A) (Option (A → A) × Option ℕ)
  unfolding leak_slot_internal publish_leaked_internal
  publish setter rounds = do
    slot ← leak_slot_internal rounds
    elim slot [
      | some s ↦ λ r.
          (publish_leaked_internal [] s.slot_id >>= λ _ r'.
          some ((none, some (add_u32 s.len_before 1)), r'))
            (record r { buffer = set r.buffer s.index (setter (get_or r.buffer s.index d)) })
      | none ↦ λ r. some ((some setter, none), r)
    ]

  pub try_consume_leaking : ℕ → AtomicMove A → Attempt × AtomicMove A
  try_consume_leaking slot_id r =
      let len_before = sub_u32 r.tail slot_id in
      if is_pos_i32 len_before
      then (
        reserved (record { index = slot_id % size; slot_id = slot_id; len_before = len_before }),
        r,
      )
      else if r.dequeuer_head == add_u32 slot_id 1
      then (given_back, record r { dequeuer_head = slot_id })
      else (spinning, r)

  pub consume_leaking_loop : List (Round A) → ℕ → Run (AtomicMove A) (Option Leaked)
  unfolding try_consume_leaking
  consume_leaking_loop [] slot_id r =
      let (attempt, r') = try_consume_leaking slot_id r in
      elim attempt [
        | reserved s ↦ some (some s, r')
        | given_back ↦ some (none, r')
        | spinning ↦ none
      ]
  consume_leaking_loop (round ∷ rounds) slot_id r =
      let (attempt, r') = try_consume_leaking slot_id r in
      elim attempt [
        | reserved s ↦ some (some s, r')
        | given_back ↦
            let next = round.others r' in
            let again =
              consume_leaking_loop rounds next.dequeuer_head
                (record next { dequeuer_head = add_u32 next.dequeuer_head 1 }) in
            if round.retry then again else some (none, r')
        | spinning ↦ consume_leaking_loop rounds slot_id (round.others r')
      ]

  pub consume_leaking_internal : List (Round A) → Run (AtomicMove A) (Option Leaked)
  unfolding consume_leaking_loop
  consume_leaking_internal rounds r =
      consume_leaking_loop rounds r.dequeuer_head
        (record r { dequeuer_head = add_u32 r.dequeuer_head 1 })

  -- The list holds what other threads do after each failed round.
  pub release_leaked_internal :
      List (AtomicMove A → AtomicMove A) → ℕ → Run (AtomicMove A) (Unit {0})
  release_leaked_internal [] slot_id r =
      if r.head == slot_id then some (tt, record r { head = add_u32 slot_id 1 }) else none
  release_leaked_internal (others ∷ rounds) slot_id r =
      let later = release_leaked_internal rounds slot_id (others r) in
      if r.head == slot_id then some (tt, record r { head = add_u32 slot_id 1 }) else later

  pub consume_movable : Run (AtomicMove A) (Option A)
  unfolding consume_leaking_internal release_leaked_internal
  consume_movable = do
    slot ← consume_leaking_internal []
    elim slot [
      | some s ↦ λ r.
          (release_leaked_internal [] s.slot_id >>= λ _ r'.
          some (some (get_or r.buffer s.index d), r'))
            r
      | none ↦ λ r. some (none, r)
    ]

  -- The two slices of the buffer that hold the published elements.
  pub peek_remaining : AtomicMove A → List A × List A
  peek_remaining r =
      if r.head == r.tail
      then ([], [])
      else peek_slices size r.buffer (r.head % size) (r.tail % size)

  -- A reference to a slot is its offset in the buffer.
  pub slot_index_from_slot_ref : ℕ → ℕ
  slot_index_from_slot_ref slot = slot % 2 ^ 32

  pub slot_ref_from_slot_index : ℕ → ℕ
  slot_ref_from_slot_index slot_index = slot_index % size

  -- `Drop`: the elements dropped, with fuel for the rounds of the loop.
  pub drop_all : ℕ → AtomicMove A → Option (List A)
  unfolding consume_movable
  drop_all zero r = none
  drop_all (suc fuel) r = elim (consume_movable r) [
    | none ↦ none
    | some (none, r') ↦ some []
    | some (some item, r') ↦ elim (drop_all fuel r') [
      | none ↦ none
      | some items ↦ some (item ∷ items)
    ]
  ]
