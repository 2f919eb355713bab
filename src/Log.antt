-- ===== src/Log.antt =====
-- MMapMeta of src/ogre_std/ogre_queues/log_topics/mmap_meta.rs: a topic that only grows, in a buffer
-- mapped from a file, and its two kinds of subscribers. Every atomic operation is one step. Accesses
-- outside of the buffer, and loops that nobody can end, have the result `none`.
pub mod Topic
pub mod Subscribers
use reactive_mutiny.Common.{
  ℕ, ◌+◌, ◌-◌, ◌%◌, ◌^◌, Bool, true, false, Option, none, some, List, [], ◌∷◌, length, get_or, set,
  ltb, leb, ◌==◌, if◌then◌else◌, add_u32, add_u64, Run, ◌>>=◌, non_zero_u32,
}

pub record MMapMeta {ℓ} (A : Type ℓ) : Type ℓ where
  pub publisher_tail : ℕ
  pub consumer_tail : ℕ
  pub slice_length : ℕ
  pub buffer : List A

-- It reads the topic's tail at each consumption.
pub record DynamicSubscriber : Type 0 where
  pub head : ℕ

pub record FixedSubscriber : Type 0 where
  pub head : ℕ
  pub fixed_tail : ℕ

pub data Subscriber : Type 0 where
  dynamic : DynamicSubscriber → Subscriber
  fixed : FixedSubscriber → Subscriber

-- What `consume` answers: the element with what `report_len_after_dequeueing_fn` is told, or `empty`
-- once `report_empty_fn` was called.
pub data Consumed {ℓ} (A : Type ℓ) : Type ℓ where
  empty : Consumed A
  element : A → ℕ → Consumed A

-- `d` stands for what an unwritten part of the file reads as.
module _ {ℓ} {A : Type ℓ} (d : A) where
  -- The mapped contents of a new file, once its header is zeroed: `slots` is what the file holds.
  pub new : List A → MMapMeta A
  new slots = record {
    publisher_tail = 0;
    consumer_tail = 0;
    slice_length = length slots % 2 ^ 64;
    buffer = slots;
  }

  -- The steps of `publish`: take a slot, write it, and wait for one's turn to make it visible.
  pub reserve : MMapMeta A → ℕ × MMapMeta A
  reserve t = (t.publisher_tail, record t { publisher_tail = add_u64 t.publisher_tail 1 })

  pub write : (A → A) → ℕ → Run (MMapMeta A) (Unit {0})
  write setter tail t =
      if ltb tail (length t.buffer)
      then some (tt, record t { buffer = set t.buffer tail (setter (get_or t.buffer tail d)) })
      else none

  pub try_commit : ℕ → MMapMeta A → Bool × MMapMeta A
  try_commit tail t =
      if t.consumer_tail == tail
      then (true, record t { consumer_tail = add_u64 tail 1 })
      else (false, t)

  -- The list holds what other threads do after each failed round.
  pub commit : List (MMapMeta A → MMapMeta A) → ℕ → Run (MMapMeta A) (Unit {0})
  unfolding try_commit
  commit [] tail t =
      let (done, t') = try_commit tail t in elim done [ true ↦ some (tt, t') | false ↦ none ]
  commit (others ∷ rounds) tail t =
      let (done, t') = try_commit tail t in
      elim done [ true ↦ some (tt, t') | false ↦ commit rounds tail (others t') ]

  -- The setter never comes back: the answer is the number of elements, as a `NonZeroU32`.
  pub publish : (A → A) → Run (MMapMeta A) (Option ℕ × Option (A → A))
  unfolding reserve write commit
  publish setter t =
      let (tail, t') = reserve t in
      (write setter tail >>= λ _.
      commit [] tail >>= λ _ s. some ((non_zero_u32 (add_u32 1 (tail % 2 ^ 32)), none), s))
        t'

  pub publish_movable : A → Run (MMapMeta A) (Option ℕ × Option A)
  unfolding publish
  publish_movable item = do r ← publish (λ _. item); λ t. some ((r.0, none), t)

  abbrev pub available_elements_count : MMapMeta A → ℕ
  available_elements_count t = t.publisher_tail

  abbrev pub max_size : MMapMeta A → ℕ
  max_size t = t.slice_length

  pub subscribe_to_new_events_only : MMapMeta A → DynamicSubscriber
  subscribe_to_new_events_only t = record { head = t.consumer_tail }

  pub subscribe_to_separated_old_and_new_events : MMapMeta A → FixedSubscriber × DynamicSubscriber
  subscribe_to_separated_old_and_new_events t =
      (record { head = 0; fixed_tail = t.consumer_tail }, record { head = t.consumer_tail })

  pub subscribe_to_joined_old_and_new_events : MMapMeta A → DynamicSubscriber
  subscribe_to_joined_old_and_new_events t = record { head = 0 }

  -- Both kinds of subscriber, up to where their tail comes from: `head` is what `fetch_add` answers,
  -- and a head past the tail is put back.
  consume_before : ℕ → ℕ → MMapMeta A → Option (Consumed A × ℕ)
  consume_before tail head t =
      if leb tail head
      then some (empty, head)
      else if ltb head (length t.buffer)
      then some (element (get_or t.buffer head d) ((tail - head) % 2 ^ 32), add_u64 head 1)
      else none

  pub consume_dynamic : MMapMeta A → Run DynamicSubscriber (Consumed A)
  unfolding consume_before
  consume_dynamic t s = elim (consume_before t.consumer_tail s.head t) [
    | none ↦ none
    | some (r, head) ↦ some (r, record { head = head })
  ]

  pub consume_fixed : MMapMeta A → Run FixedSubscriber (Consumed A)
  unfolding consume_before
  consume_fixed t s = elim (consume_before s.fixed_tail s.head t) [
    | none ↦ none
    | some (r, head) ↦ some (r, record s { head = head })
  ]

  -- A subtraction of usize, which wraps around where the head is past the tail.
  pub remaining_elements_count : MMapMeta A → Subscriber → ℕ
  remaining_elements_count t (dynamic s) = (t.consumer_tail + (2 ^ 64 - s.head)) % 2 ^ 64
  remaining_elements_count t (fixed s) = (s.fixed_tail + (2 ^ 64 - s.head)) % 2 ^ 64
