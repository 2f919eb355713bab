-- ===== src/Uni/Atomic.antt =====
-- Atomic of src/uni/channels/movable/atomic.rs, over an AtomicMove. A panic, like a call that
-- never returns, has the result `none`.
pub mod Reserving
use reactive_mutiny.Common.{
  refl, IsRingSize, ◌≡◌, ℕ, suc, ◌+◌, ◌%◌, ◌^◌, Bool, true, false, add_u32, ◌==◌, Option, none,
  some, List, [], get_or, set, leb, ltb, if◌then◌else◌, sub_u32, Run, ◌>>=◌,
}
use reactive_mutiny.Atomic.Move
use reactive_mutiny.Atomic.Move.{AtomicMove}
use reactive_mutiny.Atomic.Move.Refine.{IsQuiet, contents, publish_movable_lem}
use reactive_mutiny.Streams
use reactive_mutiny.Streams.{Wakers, Sort, StreamsManager}
use reactive_mutiny.Channels.Ending
use reactive_mutiny.Channels.Ending.{Sleep, Ended}
use reactive_mutiny.Channels.{Sent, ok, transient, Channel, on_streams, run_streams, run_channel}
use reactive_mutiny.Uni.Sending.{Offered, offer-Offered}
use reactive_mutiny.Channels.Stream.{ChannelConsumer, MutinyStream}

abbrev pub Atomic {ℓ} : Type ℓ → Wakers → Type ℓ
Atomic A w = Channel (AtomicMove A) w

module _ {ℓ} {A : Type ℓ} (d : A) (BUFFER_SIZE MAX_STREAMS : ℕ) (sort : Sort) (w : Wakers) where
  pub new : Option (Atomic A w)
  new = elim (Streams.new MAX_STREAMS sort w) [
    | none ↦ none
    | some manager ↦ some (record { streams_manager = manager; channel = Move.new d BUFFER_SIZE })
  ]

  abbrev pub is_channel_open : Atomic A w → Bool
  is_channel_open s = Streams.is_any_stream_running MAX_STREAMS sort w s.streams_manager

  abbrev pub cancel_all_streams : Atomic A w → Atomic A w
  cancel_all_streams = on_streams (Streams.cancel_all_streams MAX_STREAMS sort w)

  abbrev pub running_streams_count : Atomic A w → ℕ
  running_streams_count s = Streams.running_streams_count MAX_STREAMS sort w s.streams_manager

  abbrev pub pending_items_count : Atomic A w → ℕ
  pending_items_count s = Move.available_elements_count d BUFFER_SIZE s.channel

  abbrev pub flush : Bool → List (Sleep (Atomic A w)) → Atomic A w → Option (Ended ℕ (Atomic A w))
  flush timed = Ending.flush MAX_STREAMS sort timed pending_items_count

  abbrev pub gracefully_end_stream :
      Bool → ℕ → List (Sleep (Atomic A w)) → Atomic A w → Option (Ended Bool (Atomic A w))
  gracefully_end_stream timed = Ending.end_stream MAX_STREAMS sort timed pending_items_count

  abbrev pub gracefully_end_all_streams :
      Bool → List (Sleep (Atomic A w)) → Bool → Atomic A w → Option (Ended ℕ (Atomic A w))
  gracefully_end_all_streams timed =
      Ending.end_all_streams MAX_STREAMS sort timed pending_items_count

  abbrev pub buffer_size : ℕ
  buffer_size = BUFFER_SIZE % 2 ^ 32

  abbrev pub create_stream : Run (Atomic A w) (Option MutinyStream)
  create_stream = do
    stream_id ← run_streams (Streams.create_stream_id MAX_STREAMS sort w)
    λ s. elim stream_id [
      | none ↦ some (none, s)
      | some i ↦ some (some (record { stream_id = i }), s)
    ]

  -- What `send` and the closure of `send_with` do with the length after the event.
  unfoldable pub wake_for : ℕ → StreamsManager w → StreamsManager w
  wake_for len_after manager =
      if leb len_after (MAX_STREAMS % 2 ^ 32)
      then Streams.wake_stream MAX_STREAMS sort w (sub_u32 len_after 1) manager
      else if len_after == add_u32 1 (MAX_STREAMS % 2 ^ 32)
      then Streams.wake_stream MAX_STREAMS sort w (sub_u32 len_after 2) manager
      else manager

  unfoldable pub send : A → Run (Atomic A w) (Sent A)
  unfolding wake_for
  send item = do
    answer ← run_channel (Move.publish_movable d BUFFER_SIZE item)
    λ s. elim answer.0 [
      | some len_after ↦ some (ok, on_streams (wake_for len_after) s)
      | none ↦ elim answer.1 [ none ↦ none | some it ↦ some (transient it, s) ]
    ]

  unfoldable pub send_with : (A → A) → Run (Atomic A w) (Sent (A → A))
  unfolding wake_for
  send_with setter = do
    answer ← run_channel (Move.publish d BUFFER_SIZE setter [])
    λ s.
        let s' : Atomic A w = elim answer.1 [
          | none ↦ s
          | some len_after ↦ on_streams (wake_for len_after) s
        ] in
        elim answer.0 [ none ↦ some (ok, s') | some f ↦ some (transient f, s') ]

  -- The future that `setter` makes of the slot, and that is awaited, is a computation on the state;
  -- `others` is what other threads do after each failed round of the publication.
  unfoldable pub send_with_async :
      List (AtomicMove A → AtomicMove A)
      → (ℕ → Run (Atomic A w) (Unit {0}))
      → Run (Atomic A w) (Sent (ℕ → Run (Atomic A w) (Unit {0})))
  send_with_async others setter = do
    slot ← run_channel (Move.leak_slot_internal d BUFFER_SIZE [])
    elim slot [
      | some leaked ↦ setter leaked.index >>= λ _.
          run_channel (Move.publish_leaked_internal d BUFFER_SIZE others leaked.slot_id) >>= λ _ s'.
          some (
            ok,
            (if ltb leaked.len_before (MAX_STREAMS % 2 ^ 32)
                then on_streams (Streams.wake_stream MAX_STREAMS sort w leaked.len_before) s'
                else s'),
          )
      | none ↦ λ s. some (transient setter, s)
    ]

  -- A reserved slot is a reference into the buffer.
  unfoldable pub reserve_slot : Run (Atomic A w) (Option ℕ)
  reserve_slot = do
    slot ← run_channel (Move.leak_slot_internal d BUFFER_SIZE [])
    λ s. some ((elim slot [ none ↦ none | some leaked ↦ some leaked.index ]), s)

  unfoldable pub try_send_reserved : ℕ → Run (Atomic A w) Bool
  try_send_reserved reserved_slot = do
    answer ← run_channel (
        Move.try_publish_leaked_internal_index d BUFFER_SIZE
          (Move.slot_index_from_slot_ref d BUFFER_SIZE reserved_slot))
    λ s. elim answer [
      | none ↦ some (false, s)
      | some len_after ↦ some (
        true,
        (if leb len_after (MAX_STREAMS % 2 ^ 32)
            then on_streams
                (Streams.wake_stream MAX_STREAMS sort w (len_after % (MAX_STREAMS % 2 ^ 32))) s
            else s),
      )
    ]

  unfoldable pub try_cancel_slot_reserve : ℕ → Run (Atomic A w) Bool
  try_cancel_slot_reserve reserved_slot = run_channel (
      Move.try_unleak_slot_index_internal d BUFFER_SIZE
        (Move.slot_index_from_slot_ref d BUFFER_SIZE reserved_slot))

  abbrev pub consume : ℕ → Run (Atomic A w) (Option A)
  consume stream_id = run_channel (Move.consume_movable d BUFFER_SIZE)

  abbrev pub keep_stream_running : ℕ → Atomic A w → Bool
  keep_stream_running stream_id s =
      Streams.keep_stream_running MAX_STREAMS sort w stream_id s.streams_manager

  abbrev pub register_stream_waker : ℕ → w.Waker → Atomic A w → Atomic A w
  register_stream_waker stream_id waker =
      on_streams (Streams.register_stream_waker MAX_STREAMS sort w stream_id waker)

  abbrev pub drop_resources : ℕ → Run (Atomic A w) (Unit {0})
  drop_resources stream_id =
      run_streams (Streams.report_stream_dropped MAX_STREAMS sort w stream_id)

  abbrev pub consumer : ChannelConsumer (Atomic A w) A w
  consumer = record {
    consume = consume;
    keep_stream_running = keep_stream_running;
    register_stream_waker = register_stream_waker;
    drop_resources = drop_resources;
  }

  module _ (sz : IsRingSize BUFFER_SIZE) where
    -- `send` adds the event as the last one and wakes the stream whose id is the number of events that
    -- were there, or the last one if there is one event more than streams; when the buffer is full the
    -- event comes back.
    pub atomic_send-Offered :
        (item : A) (s : Atomic A w)
        → IsQuiet BUFFER_SIZE s.channel
        → (answer : Sent A) × (s' : Atomic A w) × (send item s ≡ some (answer, s'))
          × IsQuiet BUFFER_SIZE s'.channel
          × Offered BUFFER_SIZE
              (contents d BUFFER_SIZE)
              (λ n. wake_for (n + 1))
              item
              item
              s
              s'
              answer
    unfolding send
    atomic_send-Offered item s v =
        offer-Offered BUFFER_SIZE (contents d BUFFER_SIZE) (IsQuiet BUFFER_SIZE)
          (Move.publish_movable d BUFFER_SIZE) wake_for (λ n. wake_for (n + 1)) item s
          (λ n lt. refl) (publish_movable_lem d BUFFER_SIZE sz item s.channel v)
