-- ===== src/Uni/Atomic/Reserving.antt =====
-- Atomic (movable): slots that are reserved, then sent or given back.
use reactive_mutiny.Common.{
  ℕ, ◌+◌, ◌%◌, ◌^◌, ◌<◌, ◌≡◌, refl, sym, ap, ◌∙◌, Bool-cases, inl, inr, none, some, [], arith,
  length, set, ltb, lt→ltb, leb, ==_iff, if◌then◌else◌, sub_u32, add_u32, IsRingSize,
  ring_size_bounds, ◌>>=◌, non_zero_u32, true,
}
use native.Mathlib.Nat.{mod-lt}
use reactive_mutiny.Atomic.Move
use reactive_mutiny.Atomic.Move.{AtomicMove, max_one}
use reactive_mutiny.Atomic.Move.Refine.{IsQuiet, contents, length-contents, stored, publish_room}
use reactive_mutiny.Atomic.Move.Retry.{reserve_room}
use reactive_mutiny.Atomic.Move.Indexes.{
  try_publish_leaked_internal_index_lem, try_unleak_slot_index_internal_lem,
  slot_index_from_slot_ref_lem,
}
use reactive_mutiny.Streams.{Wakers, Sort, StreamsManager, wake_stream}
use reactive_mutiny.Channels.{run_channel}
use reactive_mutiny.Uni.Atomic.{Atomic, reserve_slot, try_send_reserved, try_cancel_slot_reserve}

module _ {ℓ} {A : Type ℓ} (d : A) (BUFFER_SIZE MAX_STREAMS : ℕ) (sort : Sort) (w : Wakers)
    (sz : IsRingSize BUFFER_SIZE) where
  -- The channel with a slot reserved.
  abbrev pub held : Atomic A w → Atomic A w
  held s = record s { channel = record (s.channel) { enqueuer_tail = add_u32 s.channel.tail 1 } }

  -- The same, with the slot written.
  abbrev pub held_with : A → Atomic A w → Atomic A w
  held_with x s = record s {
    channel = record (s.channel) {
      enqueuer_tail = add_u32 s.channel.tail 1;
      buffer = set s.channel.buffer (s.channel.tail % BUFFER_SIZE) x;
    };
  }

  room :
      (r : AtomicMove A)
      → length (contents d BUFFER_SIZE r) < BUFFER_SIZE
      → ltb (sub_u32 r.tail r.head) (BUFFER_SIZE % 2 ^ 32) ≡ true
  room r lt = lt→ltb _ _ (omega (arith, ring_size_bounds sz, length-contents d BUFFER_SIZE r))

  inside : (tail : ℕ) → tail % BUFFER_SIZE < BUFFER_SIZE
  inside tail = mod-lt tail (omega (arith, ring_size_bounds sz))

  some_max : (n : ℕ) → non_zero_u32 (max_one n) ≡ some (max_one n)
  some_max n = ground arith

  -- The slot's index, out of its reference.
  index_lem :
      (tail : ℕ)
      → Move.slot_index_from_slot_ref d BUFFER_SIZE (tail % BUFFER_SIZE) ≡ tail % BUFFER_SIZE
  index_lem tail =
      slot_index_from_slot_ref_lem d BUFFER_SIZE (tail % BUFFER_SIZE)
        (omega (arith, inside tail, ring_size_bounds sz))

  -- Whom `try_send_reserved` wakes for the number that the container answers.
  abbrev pub woken : ℕ → StreamsManager w → StreamsManager w
  woken n manager =
      if leb n (MAX_STREAMS % 2 ^ 32)
      then wake_stream MAX_STREAMS sort w (n % (MAX_STREAMS % 2 ^ 32)) manager
      else manager

  -- With room for an event, `reserve_slot` hands out the slot after the last event; `contents` stays.
  pub reserve_slot_lem :
      (s : Atomic A w)
      → IsQuiet BUFFER_SIZE s.channel
      → length (contents d BUFFER_SIZE s.channel) < BUFFER_SIZE
      → reserve_slot d BUFFER_SIZE MAX_STREAMS sort w s
        ≡ some (some (s.channel.tail % BUFFER_SIZE), held s)
  unfolding reserve_slot
  reserve_slot_lem s v lt =
      rw (◌>>=◌, reserve_room d BUFFER_SIZE [] s.channel v.no_producer (room s.channel lt)) refl

  -- A slot that is reserved and given back leaves the channel as it was.
  pub reserve_slot-try_cancel_slot_reserve :
      (s : Atomic A w)
      → IsQuiet BUFFER_SIZE s.channel
      → length (contents d BUFFER_SIZE s.channel) < BUFFER_SIZE
      → (slot : ℕ) × (s' : Atomic A w) × (reserve_slot d BUFFER_SIZE MAX_STREAMS sort w s
          ≡ some (some slot, s'))
        × (try_cancel_slot_reserve d BUFFER_SIZE MAX_STREAMS sort w slot s' ≡ some (true, s))
  unfolding try_cancel_slot_reserve
  reserve_slot-try_cancel_slot_reserve s v lt = (
    s.channel.tail % BUFFER_SIZE,
    held s,
    reserve_slot_lem s v lt,
    rw
        (
          run_channel,
          index_lem s.channel.tail,
          try_unleak_slot_index_internal_lem d BUFFER_SIZE (s.channel.tail % BUFFER_SIZE)
              (held s).channel sz (omega arith) (inside s.channel.tail),
          back,
          (==_iff (s.channel.tail % BUFFER_SIZE) (s.channel.tail % BUFFER_SIZE)).1 refl,
        )
        (ap (λ n. some (true, record s { channel = record (s.channel) { enqueuer_tail = n } }))
          (sym v.no_producer)),
  )
    where
      back : sub_u32 (add_u32 s.channel.tail 1) 1 ≡ s.channel.tail
      back = omega (arith, v.tail_word)

  -- A slot that is reserved, written and sent is the last event: the container is as `publish_movable`
  -- leaves it. Where the number of events before it, or one, is at most MAX_STREAMS, the stream whose
  -- id is that number modulo MAX_STREAMS is woken.
  pub reserve_slot-try_send_reserved :
      (x : A) (s : Atomic A w)
      → IsQuiet BUFFER_SIZE s.channel
      → length (contents d BUFFER_SIZE s.channel) < BUFFER_SIZE
      → (slot : ℕ) × (reserve_slot d BUFFER_SIZE MAX_STREAMS sort w s ≡ some (some slot, held s))
        × (c : AtomicMove A) × (Move.publish_movable d BUFFER_SIZE x s.channel
            ≡ some ((some (length (contents d BUFFER_SIZE s.channel) + 1), none), c))
        × (try_send_reserved d BUFFER_SIZE MAX_STREAMS sort w slot (held_with x s)
            ≡ some (
              true,
              record {
                streams_manager =
                    woken (max_one (length (contents d BUFFER_SIZE s.channel))) s.streams_manager;
                channel = c;
              },
            ))
  unfolding try_send_reserved
  reserve_slot-try_send_reserved x s v lt = (
    s.channel.tail % BUFFER_SIZE,
    reserve_slot_lem s v lt,
    stored d BUFFER_SIZE x s.channel,
    publish_room d BUFFER_SIZE x s.channel v.no_producer (room s.channel lt)
        ∙ ap (λ a. some ((a, none), stored d BUFFER_SIZE x s.channel)) counted,
    rw
        (
          ◌>>=◌,
          index_lem s.channel.tail,
          try_publish_leaked_internal_index_lem d BUFFER_SIZE (s.channel.tail % BUFFER_SIZE)
              (held_with x s).channel (inside s.channel.tail),
          (==_iff (s.channel.tail % BUFFER_SIZE) (s.channel.tail % BUFFER_SIZE)).1 refl,
          some_max (sub_u32 s.channel.tail s.channel.head),
          length-contents d BUFFER_SIZE s.channel,
        )
        (elim (Bool-cases
          (leb (max_one (sub_u32 s.channel.tail s.channel.head)) (MAX_STREAMS % 2 ^ 32))) [
            | inl few ↦ rw few refl
            | inr many ↦ rw many refl
          ]),
  )
    where
      counted :
          non_zero_u32 (add_u32 (sub_u32 s.channel.tail s.channel.head) 1)
          ≡ some (length (contents d BUFFER_SIZE s.channel) + 1)
      counted = ground (arith, ring_size_bounds sz, length-contents d BUFFER_SIZE s.channel)
