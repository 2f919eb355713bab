-- ===== src/Multi/MmapLog.antt =====
-- MmapLog of src/multi/channels/reference/mmap_log.rs: the streams read one MMapMeta, each at its own
-- pace. A panic has the result `none`.
pub mod Sending
use reactive_mutiny.Common.{
  ℕ, suc, zero, ◌%◌, ◌^◌, Bool, Option, none, some, List, [], ◌∷◌, length, get_or, set, replicate,
  ltb, ◌==◌, if◌then◌else◌, Run, ◌>>=◌,
}
use reactive_mutiny.Log
use reactive_mutiny.Log.{
  MMapMeta, DynamicSubscriber, FixedSubscriber, Subscriber, dynamic, fixed, Consumed, empty,
  element,
}
use reactive_mutiny.Streams
use reactive_mutiny.Streams.{u32_max, Wakers, Sort, StreamsManager}
use reactive_mutiny.Channels.Ending
use reactive_mutiny.Channels.Ending.{Sleep, Ended}
use reactive_mutiny.Channels.{Sent, ok, transient, Channel, on_streams, run_streams}
use reactive_mutiny.Channels.Stream.{ChannelConsumer, MutinyStream}

pub record Topic {ℓ} (A : Type ℓ) : Type ℓ where
  pub log_queue : MMapMeta A
  pub subscribers : List Subscriber

abbrev pub MmapLog {ℓ} : Type ℓ → Wakers → Type ℓ
MmapLog A w = Channel (Topic A) w

-- `slots` is what the file holds: BUFFER_SIZE slots.
module _ {ℓ} {A : Type ℓ} (d : A) (MAX_STREAMS : ℕ) (sort : Sort) (w : Wakers) where
  abbrev pub from_file : List A → Option (MmapLog A w)
  from_file slots =
      let log_queue = Log.new d slots in
      elim (Streams.new MAX_STREAMS sort w) [
        | none ↦ none
        | some manager ↦ some (record {
          streams_manager = manager;
          channel = record {
            log_queue = log_queue;
            subscribers =
                replicate MAX_STREAMS (dynamic (Log.subscribe_to_new_events_only d log_queue));
          };
        })
      ]

  abbrev pub is_channel_open : MmapLog A w → Bool
  is_channel_open s = Streams.is_any_stream_running MAX_STREAMS sort w s.streams_manager

  abbrev pub cancel_all_streams : MmapLog A w → MmapLog A w
  cancel_all_streams = on_streams (Streams.cancel_all_streams MAX_STREAMS sort w)

  abbrev pub running_streams_count : MmapLog A w → ℕ
  running_streams_count s = Streams.running_streams_count MAX_STREAMS sort w s.streams_manager

  -- The most that a used stream has left.
  furthest : List ℕ → Topic A → ℕ
  furthest [] t = 0
  furthest (stream_id ∷ ids) t =
      let n =
        Log.remaining_elements_count d t.log_queue
          (get_or t.subscribers stream_id (dynamic (record { head = 0 }))) in
      let m = furthest ids t in if stream_id == u32_max then 0 else if ltb m n then n else m

  abbrev pub pending_items_count : MmapLog A w → ℕ
  unfolding furthest
  pending_items_count s = furthest s.streams_manager.used_streams s.channel % 2 ^ 32

  abbrev pub flush :
      Bool → List (Sleep (MmapLog A w)) → MmapLog A w → Option (Ended ℕ (MmapLog A w))
  flush timed = Ending.flush MAX_STREAMS sort timed pending_items_count

  abbrev pub gracefully_end_stream :
      Bool → ℕ → List (Sleep (MmapLog A w)) → MmapLog A w → Option (Ended Bool (MmapLog A w))
  gracefully_end_stream timed = Ending.end_stream MAX_STREAMS sort timed pending_items_count

  abbrev pub gracefully_end_all_streams :
      Bool → List (Sleep (MmapLog A w)) → Bool → MmapLog A w → Option (Ended ℕ (MmapLog A w))
  gracefully_end_all_streams timed =
      Ending.end_all_streams MAX_STREAMS sort timed pending_items_count

  abbrev pub buffer_size : ℕ
  buffer_size = u32_max

  abbrev subscribe : ℕ → Subscriber → MmapLog A w → MmapLog A w
  subscribe stream_id subscriber s = record s {
    channel = record (s.channel) { subscribers = set s.channel.subscribers stream_id subscriber };
  }

  unfoldable pub create_stream_for_new_events : Run (MmapLog A w) (Option MutinyStream)
  create_stream_for_new_events = do
    stream_id ← run_streams (Streams.create_stream_id MAX_STREAMS sort w)
    λ s. elim stream_id [
      | none ↦ some (none, s)
      | some i ↦ some (
        some (record { stream_id = i }),
        subscribe i (dynamic (Log.subscribe_to_new_events_only d s.channel.log_queue)) s,
      )
    ]

  -- Both subscriptions are made first, at the same moment of the log.
  unfoldable pub create_streams_for_old_and_new_events :
      Run (MmapLog A w) (Option (MutinyStream × MutinyStream))
  create_streams_for_old_and_new_events s0 =
      let both = Log.subscribe_to_separated_old_and_new_events d s0.channel.log_queue in
      (run_streams (Streams.create_stream_id MAX_STREAMS sort w) >>= λ oldies_id.
      run_streams (Streams.create_stream_id MAX_STREAMS sort w) >>= λ newies_id s. elim oldies_id [
        | none ↦ some (none, s)
        | some i ↦ elim newies_id [
          | none ↦ some (none, s)
          | some j ↦ some (
            some (record { stream_id = i }, record { stream_id = j }),
            subscribe j (dynamic both.1) (subscribe i (fixed both.0) s),
          )
        ]
      ])
        s0

  unfoldable pub create_stream_for_old_and_new_events : Run (MmapLog A w) (Option MutinyStream)
  create_stream_for_old_and_new_events = do
    stream_id ← run_streams (Streams.create_stream_id MAX_STREAMS sort w)
    λ s. elim stream_id [
      | none ↦ some (none, s)
      | some i ↦ some (
        some (record { stream_id = i }),
        subscribe i (dynamic (Log.subscribe_to_joined_old_and_new_events d s.channel.log_queue)) s,
      )
    ]

  -- The loop over the first `n` used streams; reading past the list is no step.
  pub wake_used : ℕ → List ℕ → Run (StreamsManager w) (Unit {0})
  wake_used zero ids s = some (tt, s)
  wake_used (suc n) [] s = none
  wake_used (suc n) (stream_id ∷ ids) s =
      wake_used n ids
        (if stream_id == u32_max then s else Streams.wake_stream MAX_STREAMS sort w stream_id s)

  unfoldable pub send : A → Run (MmapLog A w) (Sent A)
  unfolding wake_used
  send item s = elim (Log.publish_movable d item s.channel.log_queue) [
    | none ↦ none
    | some (answer, log_queue) ↦
        let s' = record s { channel = record (s.channel) { log_queue = log_queue } } in
        elim answer.0 [
          | some tail ↦
              (run_streams (wake_used (running_streams_count s') s'.streams_manager.used_streams)
                  >>= λ _ s''. some (ok, s''))
                s'
          | none ↦ elim answer.1 [ none ↦ none | some it ↦ some (transient it, s') ]
        ]
  ]

  abbrev pub send_with : (A → A) → Run (MmapLog A w) (Sent (A → A))
  unfolding wake_used
  send_with setter s = elim (Log.publish d setter s.channel.log_queue) [
    | none ↦ none
    | some (answer, log_queue) ↦
        let s' = record s { channel = record (s.channel) { log_queue = log_queue } } in
        elim answer.0 [
          | some tail ↦
              (run_streams (wake_used (running_streams_count s') s'.streams_manager.used_streams)
                  >>= λ _ s''. some (ok, s''))
                s'
          | none ↦ elim answer.1 [ none ↦ none | some f ↦ some (transient f, s') ]
        ]
  ]

  -- A subscriber of old events that finds none left ends its stream.
  unfoldable pub consume_by : ℕ → Subscriber → Run (MmapLog A w) (Option A)
  consume_by stream_id (dynamic subscriber) s =
      elim (Log.consume_dynamic d s.channel.log_queue subscriber) [
        | none ↦ none
        | some (event, next) ↦ elim event [
          | empty ↦ some (none, subscribe stream_id (dynamic next) s)
          | element item n ↦ some (some item, subscribe stream_id (dynamic next) s)
        ]
      ]
  consume_by stream_id (fixed subscriber) s =
      elim (Log.consume_fixed d s.channel.log_queue subscriber) [
        | none ↦ none
        | some (event, next) ↦ elim event [
          | empty ↦ some (
            none,
            on_streams (Streams.cancel_stream MAX_STREAMS sort w stream_id)
                (subscribe stream_id (fixed next) s),
          )
          | element item n ↦ some (some item, subscribe stream_id (fixed next) s)
        ]
      ]

  unfoldable pub consume : ℕ → Run (MmapLog A w) (Option A)
  unfolding consume_by
  consume stream_id s =
      if ltb stream_id (length s.channel.subscribers)
      then consume_by stream_id
          (get_or s.channel.subscribers stream_id (dynamic (record { head = 0 }))) s
      else none

  abbrev pub keep_stream_running : ℕ → MmapLog A w → Bool
  keep_stream_running stream_id s =
      Streams.keep_stream_running MAX_STREAMS sort w stream_id s.streams_manager

  abbrev pub register_stream_waker : ℕ → w.Waker → MmapLog A w → MmapLog A w
  register_stream_waker stream_id waker =
      on_streams (Streams.register_stream_waker MAX_STREAMS sort w stream_id waker)

  abbrev pub drop_resources : ℕ → Run (MmapLog A w) (Unit {0})
  drop_resources stream_id =
      run_streams (Streams.report_stream_dropped MAX_STREAMS sort w stream_id)

  abbrev pub drop : MmapLog A w → MmapLog A w
  drop = cancel_all_streams
