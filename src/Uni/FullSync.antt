-- ===== src/Uni/FullSync.antt =====
-- FullSync of src/uni/channels/movable/full_sync.rs, over a FullSyncMove. A panic, like a call that
-- never returns, has the result `none`.
pub mod Setters
use reactive_mutiny.Common.{
  IsRingSize, ring_size_bounds, arith, ◌<◌, ◌≡◌, ℕ, suc, ◌+◌, ◌%◌, ◌^◌, Bool, Option, none, some,
  List, [], get_or, set, leb, ltb, if◌then◌else◌, sub_u32, Run, ◌>>=◌,
}
use reactive_mutiny.FullSync.Move
use reactive_mutiny.FullSync.Move.{FullSyncMove}
use reactive_mutiny.FullSync.Move.Refine.{IsReady, contents, publish_refines}
use reactive_mutiny.Streams
use reactive_mutiny.Streams.{Wakers, Sort, StreamsManager}
use reactive_mutiny.Channels.Ending
use reactive_mutiny.Channels.Ending.{Sleep, Ended}
use reactive_mutiny.Channels.{Sent, ok, transient, Channel, on_streams, run_streams, run_channel}
use reactive_mutiny.Uni.Sending.{Offered, offer-Offered, next_stream_woken, next_stream_woken_after}
use reactive_mutiny.Channels.Stream.{ChannelConsumer, MutinyStream}

-- `channel` is the source's `container`.
abbrev pub FullSync {ℓ} : Type ℓ → Wakers → Type ℓ
FullSync A w = Channel (FullSyncMove A) w

module _ {ℓ} {A : Type ℓ} (d : A) (BUFFER_SIZE MAX_STREAMS : ℕ) (sort : Sort) (w : Wakers) where
  pub new : Option (FullSync A w)
  new = elim (Streams.new MAX_STREAMS sort w) [
    | none ↦ none
    | some manager ↦ some (record { streams_manager = manager; channel = Move.new d BUFFER_SIZE })
  ]

  abbrev pub is_channel_open : FullSync A w → Bool
  is_channel_open s = Streams.is_any_stream_running MAX_STREAMS sort w s.streams_manager

  abbrev pub cancel_all_streams : FullSync A w → FullSync A w
  cancel_all_streams = on_streams (Streams.cancel_all_streams MAX_STREAMS sort w)

  abbrev pub running_streams_count : FullSync A w → ℕ
  running_streams_count s = Streams.running_streams_count MAX_STREAMS sort w s.streams_manager

  abbrev pub pending_items_count : FullSync A w → ℕ
  pending_items_count s = Move.available_elements_count d BUFFER_SIZE s.channel

  abbrev pub flush :
      Bool → List (Sleep (FullSync A w)) → FullSync A w → Option (Ended ℕ (FullSync A w))
  flush timed = Ending.flush MAX_STREAMS sort timed pending_items_count

  abbrev pub gracefully_end_stream :
      Bool → ℕ → List (Sleep (FullSync A w)) → FullSync A w → Option (Ended Bool (FullSync A w))
  gracefully_end_stream timed = Ending.end_stream MAX_STREAMS sort timed pending_items_count

  abbrev pub gracefully_end_all_streams :
      Bool → List (Sleep (FullSync A w)) → Bool → FullSync A w → Option (Ended ℕ (FullSync A w))
  gracefully_end_all_streams timed =
      Ending.end_all_streams MAX_STREAMS sort timed pending_items_count

  abbrev pub buffer_size : ℕ
  buffer_size = BUFFER_SIZE % 2 ^ 32

  abbrev pub create_stream : Run (FullSync A w) (Option MutinyStream)
  create_stream = do
    stream_id ← run_streams (Streams.create_stream_id MAX_STREAMS sort w)
    λ s. elim stream_id [
      | none ↦ some (none, s)
      | some i ↦ some (some (record { stream_id = i }), s)
    ]

  -- What `send` and the closure of `send_with` do with the length after the event.
  unfoldable pub wake_for : ℕ → StreamsManager w → StreamsManager w
  wake_for len_after manager =
      if leb len_after (MAX_STREAMS % 2 ^ 32)
      then Streams.wake_stream MAX_STREAMS sort w (sub_u32 len_after 1) manager
      else manager

  unfoldable pub send : A → Run (FullSync A w) (Sent A)
  unfolding wake_for
  send item = do
    answer ← run_channel (Move.publish_movable d BUFFER_SIZE item)
    λ s. elim answer.0 [
      | some len_after ↦ some (ok, on_streams (wake_for len_after) s)
      | none ↦ elim answer.1 [ none ↦ none | some it ↦ some (transient it, s) ]
    ]

  unfoldable pub send_with : (A → A) → Run (FullSync A w) (Sent (A → A))
  unfolding wake_for
  send_with setter = do
    answer ← run_channel (Move.publish d BUFFER_SIZE setter [])
    λ s.
        let s' : FullSync A w = elim answer.1 [
          | none ↦ s
          | some len_after ↦ on_streams (wake_for len_after) s
        ] in
        elim answer.0 [ none ↦ some (ok, s') | some f ↦ some (transient f, s') ]

  -- The future that `setter` makes of the slot, and that is awaited, is a computation on the state.
  unfoldable pub send_with_async :
      (ℕ → Run (FullSync A w) (Unit {0}))
      → Run (FullSync A w) (Sent (ℕ → Run (FullSync A w) (Unit {0})))
  send_with_async setter = do
    slot ← run_channel (Move.leak_slot_internal d BUFFER_SIZE [])
    elim slot [
      | some leaked ↦ setter leaked.index >>= λ _ s.
          let published = record s {
            channel = Move.publish_leaked_internal d BUFFER_SIZE s.channel;
          } in
          some (
            ok,
            (if ltb leaked.len_before (MAX_STREAMS % 2 ^ 32)
                then on_streams (Streams.wake_stream MAX_STREAMS sort w leaked.len_before) published
                else published),
          )
      | none ↦ λ s. some (transient setter, s)
    ]

  abbrev pub consume : ℕ → Run (FullSync A w) (Option A)
  consume stream_id = run_channel (Move.consume_movable d BUFFER_SIZE)

  abbrev pub keep_stream_running : ℕ → FullSync A w → Bool
  keep_stream_running stream_id s =
      Streams.keep_stream_running MAX_STREAMS sort w stream_id s.streams_manager

  abbrev pub register_stream_waker : ℕ → w.Waker → FullSync A w → FullSync A w
  register_stream_waker stream_id waker =
      on_streams (Streams.register_stream_waker MAX_STREAMS sort w stream_id waker)

  abbrev pub drop_resources : ℕ → Run (FullSync A w) (Unit {0})
  drop_resources stream_id =
      run_streams (Streams.report_stream_dropped MAX_STREAMS sort w stream_id)

  abbrev pub consumer : ChannelConsumer (FullSync A w) A w
  consumer = record {
    consume = consume;
    keep_stream_running = keep_stream_running;
    register_stream_waker = register_stream_waker;
    drop_resources = drop_resources;
  }

  module _ (sz : IsRingSize BUFFER_SIZE) where
    -- On a ready channel, `send` adds the event as the last one and wakes the stream whose id is the number of events that
    -- were there, if there are so many streams; when the buffer is full the event comes back.
    pub full_sync_send-Offered :
        (item : A) (s : FullSync A w)
        → IsReady BUFFER_SIZE s.channel
        → (answer : Sent A) × (s' : FullSync A w) × (send item s ≡ some (answer, s'))
          × IsReady BUFFER_SIZE s'.channel
          × Offered BUFFER_SIZE
              (contents d BUFFER_SIZE)
              (next_stream_woken MAX_STREAMS sort w)
              item
              item
              s
              s'
              answer
    unfolding send wake_for
    full_sync_send-Offered item s v =
        offer-Offered BUFFER_SIZE (contents d BUFFER_SIZE) (IsReady BUFFER_SIZE)
          (Move.publish_movable d BUFFER_SIZE) wake_for (next_stream_woken MAX_STREAMS sort w) item
          s
          (λ n lt.
            next_stream_woken_after MAX_STREAMS sort w n s.streams_manager
              (omega (arith, lt, ring_size_bounds sz)))
          (publish_refines d BUFFER_SIZE sz item s.channel v)
