-- ===== src/Multi/ArcFullSync.antt =====
-- FullSync of src/multi/channels/arc/full_sync.rs: each stream has a FullSyncMove of its own. A panic, like a call
-- that never returns, has the result `none`.
use reactive_mutiny.Common.{
  ℕ, ◌%◌, ◌^◌, ◌<◌, ◌≡◌, Bool, Option, none, some, List, [], ◌∷◌, ◌++◌, length, count, ◌==◌,
  if◌then◌else◌, Run, ◌>>=◌, IsRingSize,
}
use reactive_mutiny.FullSync.Move.Container.{full_sync_move}
use reactive_mutiny.Container.{MoveContainer}
use reactive_mutiny.Streams
use reactive_mutiny.Streams.{Wakers, Sort}
use reactive_mutiny.Channels.Ending
use reactive_mutiny.Channels.Ending.{Sleep, Ended}
use reactive_mutiny.Channels.{Sent, ok, on_streams, run_streams}
use reactive_mutiny.Channels.Stream.{ChannelConsumer, MutinyStream}
use reactive_mutiny.Multi.Fanout
use reactive_mutiny.Multi.Fanout.{Fanout}
use reactive_mutiny.Multi.Fanout.Rounds.{AreReady, waiting, announced}
use reactive_mutiny.Multi.Fanout.Delivery.{IsOpen, listed, send_reaches_all}

-- `d` is what the bytes of a new queue's slots stand for.
module _ {ℓ} {A : Type ℓ} (d : A) (BUFFER_SIZE : ℕ) (sz : IsRingSize BUFFER_SIZE) (MAX_STREAMS : ℕ)
    (sort : Sort) (w : Wakers) where
  abbrev pub queue : MoveContainer A
  queue = full_sync_move d BUFFER_SIZE sz

  abbrev pub FullSync : Type ℓ
  FullSync = Fanout queue 1 MAX_STREAMS sort w

  abbrev pub new : Option FullSync
  new = Fanout.new queue 1 MAX_STREAMS sort w

  abbrev pub is_channel_open : FullSync → Bool
  is_channel_open s = Streams.is_any_stream_running MAX_STREAMS sort w s.streams_manager

  abbrev pub cancel_all_streams : FullSync → FullSync
  cancel_all_streams = on_streams (Streams.cancel_all_streams MAX_STREAMS sort w)

  abbrev pub running_streams_count : FullSync → ℕ
  running_streams_count s = Streams.running_streams_count MAX_STREAMS sort w s.streams_manager

  abbrev pub pending_items_count : FullSync → ℕ
  pending_items_count = Fanout.pending_items_count queue 1 MAX_STREAMS sort w

  abbrev pub flush : Bool → List (Sleep FullSync) → FullSync → Option (Ended ℕ FullSync)
  flush timed = Ending.flush MAX_STREAMS sort timed pending_items_count

  abbrev pub gracefully_end_stream :
      Bool → ℕ → List (Sleep FullSync) → FullSync → Option (Ended Bool FullSync)
  gracefully_end_stream timed = Ending.end_stream MAX_STREAMS sort timed pending_items_count

  abbrev pub gracefully_end_all_streams :
      Bool → List (Sleep FullSync) → Bool → FullSync → Option (Ended ℕ FullSync)
  gracefully_end_all_streams timed =
      Ending.end_all_streams MAX_STREAMS sort timed pending_items_count

  abbrev pub buffer_size : ℕ
  buffer_size = BUFFER_SIZE % 2 ^ 32

  abbrev pub create_stream_for_new_events : Run FullSync (Option MutinyStream)
  create_stream_for_new_events = do
    stream_id ← run_streams (Streams.create_stream_id MAX_STREAMS sort w)
    λ s. elim stream_id [
      | none ↦ some (none, s)
      | some i ↦ some (some (record { stream_id = i }), s)
    ]

  -- `rounds` is what other threads do, for each stream, each time that its queue is found full; a stream
  -- is woken for the first event in its queue.
  abbrev pub send_derived : (ℕ → List (FullSync → FullSync)) → A → Run FullSync Bool
  send_derived = Fanout.send_derived queue 1 MAX_STREAMS sort w

  abbrev pub send : (ℕ → List (FullSync → FullSync)) → A → Run FullSync (Sent A)
  send = Fanout.send queue 1 MAX_STREAMS sort w

  abbrev pub send_with :
      (ℕ → List (FullSync → FullSync)) → A → (A → A) → Run FullSync (Sent (A → A))
  send_with = Fanout.send_with queue 1 MAX_STREAMS sort w

  -- The future that is awaited is a computation on the state that makes the item.
  abbrev pub send_with_async :
      (ℕ → List (FullSync → FullSync)) → Run FullSync A → Run FullSync (Sent (Run FullSync A))
  send_with_async rounds setter = do item ← setter; _ ← send_derived rounds item; λ s. some (ok, s)

  abbrev pub consume : ℕ → Run FullSync (Option A)
  consume = Fanout.consume queue 1 MAX_STREAMS sort w

  abbrev pub keep_stream_running : ℕ → FullSync → Bool
  keep_stream_running stream_id s =
      Streams.keep_stream_running MAX_STREAMS sort w stream_id s.streams_manager

  abbrev pub register_stream_waker : ℕ → w.Waker → FullSync → FullSync
  register_stream_waker stream_id waker =
      on_streams (Streams.register_stream_waker MAX_STREAMS sort w stream_id waker)

  abbrev pub drop_resources : ℕ → Run FullSync (Unit {0})
  drop_resources stream_id =
      run_streams (Streams.report_stream_dropped MAX_STREAMS sort w stream_id)

  abbrev pub consumer : ChannelConsumer FullSync A w
  consumer = record {
    consume = consume;
    keep_stream_running = keep_stream_running;
    register_stream_waker = register_stream_waker;
    drop_resources = drop_resources;
  }

  abbrev pub drop : FullSync → FullSync
  drop = cancel_all_streams

  -- Where the queue of every living stream has room, `send` returns at once: the event is last in the
  -- queue of every living stream, once, and no other queue changes. The streams with no event in their
  -- queues are woken, in the order of their ids.
  pub arc_full_sync_send_reaches_all :
      {live : List ℕ} (szs : IsRingSize MAX_STREAMS) (rounds : ℕ → List (FullSync → FullSync))
      (item : A) (s : FullSync)
      → IsOpen queue 1 MAX_STREAMS sort w szs live s
      → ((i : ℕ) → 0 < count i live → length (waiting queue 1 MAX_STREAMS sort w i s) < BUFFER_SIZE)
      → (s' : FullSync) × (send rounds item s ≡ some (ok, s'))
        × AreReady queue 1 MAX_STREAMS sort w s'
        × ((i : ℕ)
            → waiting queue 1 MAX_STREAMS sort w i s' ≡ (
                if count i live == 0
                then waiting queue 1 MAX_STREAMS sort w i s
                else waiting queue 1 MAX_STREAMS sort w i s ++ (item ∷ [])))
        × (s'.streams_manager
            ≡ announced queue 1 MAX_STREAMS sort w
                (listed queue 1 MAX_STREAMS sort w szs s)
                s
                s.streams_manager)
  arc_full_sync_send_reaches_all szs rounds item s v room =
      send_reaches_all queue 1 MAX_STREAMS sort w szs rounds item s v room
