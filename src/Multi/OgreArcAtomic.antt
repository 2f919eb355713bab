-- ===== src/Multi/OgreArcAtomic.antt =====
-- Atomic of src/multi/channels/ogre_arc/atomic.rs: the events stay in the slots of an allocator, and each
-- stream has an AtomicMove of counted handles.
use reactive_mutiny.Common.{ℕ, ◌%◌, ◌^◌, Bool, Option, none, some, Run, ◌>>=◌, IsRingSize}
use reactive_mutiny.Container.{MoveContainer}
use reactive_mutiny.Atomic.Move.Container.{atomic_move}
use reactive_mutiny.Streams
use reactive_mutiny.Streams.{Wakers, Sort}
use reactive_mutiny.Channels.{Sent, on_streams, run_streams}
use reactive_mutiny.Channels.Stream.{ChannelConsumer, MutinyStream}
use reactive_mutiny.Multi.Sharing
use reactive_mutiny.Multi.Sharing.{Shared, on_dispatchers}

module _ {D : Type 0} (c : MoveContainer ℕ) (pool_size : ℕ) (junk : D) (needs_drop : Bool)
    (BUFFER_SIZE : ℕ) (sz : IsRingSize BUFFER_SIZE) (MAX_STREAMS : ℕ) (sort : Sort)
    (w : Wakers) where
  abbrev pub queue : MoveContainer ℕ
  queue = atomic_move 0 BUFFER_SIZE sz

  abbrev pub Atomic : Type 0
  Atomic = Shared c queue pool_size junk needs_drop 2 MAX_STREAMS sort w

  abbrev pub new : Option Atomic
  new = Sharing.new c queue pool_size junk needs_drop 2 MAX_STREAMS sort w

  abbrev pub is_channel_open : Atomic → Bool
  is_channel_open s = Streams.is_any_stream_running MAX_STREAMS sort w s.dispatchers.streams_manager

  abbrev pub cancel_all_streams : Atomic → Atomic
  cancel_all_streams s = record s {
    dispatchers = on_streams (Streams.cancel_all_streams MAX_STREAMS sort w) s.dispatchers;
  }

  abbrev pub running_streams_count : Atomic → ℕ
  running_streams_count s =
      Streams.running_streams_count MAX_STREAMS sort w s.dispatchers.streams_manager

  abbrev pub pending_items_count : Atomic → ℕ
  pending_items_count =
      Sharing.pending_items_count c queue pool_size junk needs_drop 2 MAX_STREAMS sort w

  abbrev pub buffer_size : ℕ
  buffer_size = BUFFER_SIZE % 2 ^ 32

  abbrev pub create_stream_for_new_events : Run Atomic (Option MutinyStream)
  unfolding on_dispatchers
  create_stream_for_new_events = do
    stream_id ←
        on_dispatchers c queue pool_size junk needs_drop 2 MAX_STREAMS sort w
          (run_streams (Streams.create_stream_id MAX_STREAMS sort w))
    λ s. elim stream_id [
      | none ↦ some (none, s)
      | some i ↦ some (some (record { stream_id = i }), s)
    ]

  abbrev pub send : D → Run Atomic (Sent D)
  send = Sharing.send c queue pool_size junk needs_drop 2 MAX_STREAMS sort w

  abbrev pub send_with : (D → D) → Run Atomic (Sent (D → D))
  send_with = Sharing.send_with c queue pool_size junk needs_drop 2 MAX_STREAMS sort w

  abbrev pub send_with_async :
      (ℕ → Run Atomic (Unit {0})) → Run Atomic (Sent (ℕ → Run Atomic (Unit {0})))
  send_with_async = Sharing.send_with_async c queue pool_size junk needs_drop 2 MAX_STREAMS sort w

  abbrev pub send_derived : ℕ → Run Atomic Bool
  send_derived = Sharing.send_derived c queue pool_size junk needs_drop 2 MAX_STREAMS sort w

  abbrev pub reserve_slot : Run Atomic (Option ℕ)
  reserve_slot = Sharing.reserve_slot c queue pool_size junk needs_drop 2 MAX_STREAMS sort w

  abbrev pub try_send_reserved : ℕ → Run Atomic Bool
  try_send_reserved =
      Sharing.try_send_reserved c queue pool_size junk needs_drop 2 MAX_STREAMS sort w

  abbrev pub try_cancel_slot_reserve : ℕ → Run Atomic Bool
  try_cancel_slot_reserve =
      Sharing.try_cancel_slot_reserve c queue pool_size junk needs_drop 2 MAX_STREAMS sort w

  abbrev pub consume : ℕ → Run Atomic (Option ℕ)
  consume = Sharing.consume c queue pool_size junk needs_drop 2 MAX_STREAMS sort w

  abbrev pub keep_stream_running : ℕ → Atomic → Bool
  keep_stream_running stream_id s =
      Streams.keep_stream_running MAX_STREAMS sort w stream_id s.dispatchers.streams_manager

  abbrev pub register_stream_waker : ℕ → w.Waker → Atomic → Atomic
  register_stream_waker stream_id waker s = record s {
    dispatchers =
        on_streams (Streams.register_stream_waker MAX_STREAMS sort w stream_id waker) s.dispatchers;
  }

  abbrev pub drop_resources : ℕ → Run Atomic (Unit {0})
  unfolding on_dispatchers
  drop_resources stream_id =
      on_dispatchers c queue pool_size junk needs_drop 2 MAX_STREAMS sort w
        (run_streams (Streams.report_stream_dropped MAX_STREAMS sort w stream_id))

  abbrev pub consumer : ChannelConsumer Atomic ℕ w
  consumer = record {
    consume = consume;
    keep_stream_running = keep_stream_running;
    register_stream_waker = register_stream_waker;
    drop_resources = drop_resources;
  }

  abbrev pub drop : Atomic → Atomic
  drop = cancel_all_streams
