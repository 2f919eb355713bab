-- ===== src/Uni/ZeroCopy/Atomic.antt =====
-- Atomic of src/uni/channels/zero_copy/atomic.rs, over a zero-copy queue whose ids go through an
-- AtomicMove. A panic, like a call that never returns, has the result `none`.
use reactive_mutiny.Common.{
  refl, ℕ, ◌+◌, ◌%◌, ◌^◌, ◌≤◌, ◌≡◌, Bool, true, false, Option, none, some, [], leb, ◌==◌,
  if◌then◌else◌, sub_u32, add_u32, Run, ◌>>=◌, IsRingSize, List,
}
use reactive_mutiny.Container.{MoveContainer}
use reactive_mutiny.Atomic.Move.Container.{atomic_move}
use reactive_mutiny.Alloc.Unique
use reactive_mutiny.Alloc.Unique.{OgreUnique}
use reactive_mutiny.ZeroCopy
use reactive_mutiny.ZeroCopy.{ZeroCopy}
use reactive_mutiny.ZeroCopy.Stock.{IsStocked, contents}
use reactive_mutiny.ZeroCopy.Queue.{zero_copy_publish_refines}
use reactive_mutiny.Streams
use reactive_mutiny.Streams.{Wakers, Sort, StreamsManager}
use reactive_mutiny.Channels.Ending
use reactive_mutiny.Channels.Ending.{Sleep, Ended}
use reactive_mutiny.Channels.{Sent, ok, transient, Channel, on_streams, run_streams, run_channel}
use reactive_mutiny.Uni.Sending.{Offered, offer-Offered}
use reactive_mutiny.Channels.Stream.{ChannelConsumer, MutinyStream}

-- `c` is the free list of the allocator, which has `pool_size` slots.
module _ {D : Type 0} (c : MoveContainer ℕ) (pool_size : ℕ) (junk : D) (needs_drop : Bool)
    (BUFFER_SIZE : ℕ) (sz : IsRingSize BUFFER_SIZE) (MAX_STREAMS : ℕ) (sort : Sort)
    (w : Wakers) where
  abbrev pub queue : MoveContainer ℕ
  queue = atomic_move 0 BUFFER_SIZE sz

  abbrev pub Atomic : Type 0
  Atomic = Channel (ZeroCopy D c queue) w

  pub new : Option Atomic
  new = elim (Streams.new MAX_STREAMS sort w) [
    | none ↦ none
    | some manager ↦ elim (ZeroCopy.new c queue pool_size junk needs_drop) [
      | none ↦ none
      | some q ↦ some (record { streams_manager = manager; channel = q })
    ]
  ]

  abbrev pub is_channel_open : Atomic → Bool
  is_channel_open s = Streams.is_any_stream_running MAX_STREAMS sort w s.streams_manager

  abbrev pub cancel_all_streams : Atomic → Atomic
  cancel_all_streams = on_streams (Streams.cancel_all_streams MAX_STREAMS sort w)

  abbrev pub running_streams_count : Atomic → ℕ
  running_streams_count s = Streams.running_streams_count MAX_STREAMS sort w s.streams_manager

  abbrev pub pending_items_count : Atomic → ℕ
  pending_items_count s =
      ZeroCopy.available_elements_count c queue pool_size junk needs_drop s.channel

  abbrev pub flush : Bool → List (Sleep Atomic) → Atomic → Option (Ended ℕ Atomic)
  flush timed = Ending.flush MAX_STREAMS sort timed pending_items_count

  abbrev pub gracefully_end_stream :
      Bool → ℕ → List (Sleep Atomic) → Atomic → Option (Ended Bool Atomic)
  gracefully_end_stream timed = Ending.end_stream MAX_STREAMS sort timed pending_items_count

  abbrev pub gracefully_end_all_streams :
      Bool → List (Sleep Atomic) → Bool → Atomic → Option (Ended ℕ Atomic)
  gracefully_end_all_streams timed =
      Ending.end_all_streams MAX_STREAMS sort timed pending_items_count

  abbrev pub buffer_size : ℕ
  buffer_size = BUFFER_SIZE % 2 ^ 32

  abbrev pub create_stream : Run Atomic (Option MutinyStream)
  create_stream = do
    stream_id ← run_streams (Streams.create_stream_id MAX_STREAMS sort w)
    λ s. elim stream_id [
      | none ↦ some (none, s)
      | some i ↦ some (some (record { stream_id = i }), s)
    ]

  -- What the sends do with the length after the event.
  unfoldable pub wake_for : ℕ → StreamsManager w → StreamsManager w
  wake_for len_after manager =
      if leb len_after (MAX_STREAMS % 2 ^ 32)
      then Streams.wake_stream MAX_STREAMS sort w (sub_u32 len_after 1) manager
      else if len_after == add_u32 1 (MAX_STREAMS % 2 ^ 32)
      then Streams.wake_stream MAX_STREAMS sort w (sub_u32 len_after 2) manager
      else manager

  unfoldable pub send : D → Run Atomic (Sent D)
  unfolding wake_for
  send item = do
    answer ← run_channel (ZeroCopy.publish_movable c queue pool_size junk needs_drop item)
    λ s. elim answer.0 [
      | some len_after ↦ some (ok, on_streams (wake_for len_after) s)
      | none ↦ elim answer.1 [ none ↦ none | some it ↦ some (transient it, s) ]
    ]

  unfoldable pub send_with : (D → D) → Run Atomic (Sent (D → D))
  unfolding wake_for
  send_with setter = do
    answer ← run_channel (ZeroCopy.publish c queue pool_size junk needs_drop setter)
    λ s. elim answer.0 [
      | some len_after ↦ some (ok, on_streams (wake_for len_after) s)
      | none ↦ elim answer.1 [ none ↦ none | some f ↦ some (transient f, s) ]
    ]

  -- The future that `setter` makes of the slot, and that is awaited, is a computation on the state; its
  -- output is the slot to publish.
  unfoldable pub send_with_async : (ℕ → Run Atomic ℕ) → Run Atomic (Sent (ℕ → Run Atomic ℕ))
  unfolding wake_for
  send_with_async setter = do
    slot ← run_channel (ZeroCopy.leak_slot c queue pool_size junk needs_drop)
    elim slot [
      | some (slot_ref, slot_id) ↦ setter slot_ref >>= λ filled.
          run_channel (ZeroCopy.publish_leaked_ref c queue pool_size junk needs_drop filled)
          >>= λ answer s. elim answer [
            | some len_after ↦ some (ok, on_streams (wake_for len_after) s)
            | none ↦ none
          ]
      | none ↦ λ s. some (transient setter, s)
    ]

  -- A reserved slot is a reference into the allocator's pool.
  unfoldable pub reserve_slot : Run Atomic (Option ℕ)
  reserve_slot = do
    slot ← run_channel (ZeroCopy.leak_slot c queue pool_size junk needs_drop)
    λ s. some ((elim slot [ none ↦ none | some (slot_ref, slot_id) ↦ some slot_ref ]), s)

  unfoldable pub try_send_reserved : ℕ → Run Atomic Bool
  try_send_reserved reserved_slot = do
    answer ←
        run_channel (ZeroCopy.publish_leaked_ref c queue pool_size junk needs_drop reserved_slot)
    λ s. elim answer [
      | none ↦ some (false, s)
      | some len_after ↦ some (
        true,
        (if leb len_after (MAX_STREAMS % 2 ^ 32)
            then on_streams
                (Streams.wake_stream MAX_STREAMS sort w (len_after % (MAX_STREAMS % 2 ^ 32))) s
            else s),
      )
    ]

  unfoldable pub try_cancel_slot_reserve : ℕ → Run Atomic Bool
  try_cancel_slot_reserve reserved_slot = do
    _ ← run_channel (ZeroCopy.release_leaked_ref c queue pool_size junk needs_drop reserved_slot)
    λ s. some (true, s)

  unfoldable pub consume : ℕ → Run Atomic (Option OgreUnique)
  consume stream_id = do
    slot ← run_channel (ZeroCopy.consume_leaking c queue pool_size junk needs_drop)
    λ s. some (
      (elim slot [
        | none ↦ none
        | some (slot_ref, slot_id) ↦
            some (Unique.from_allocated_ref c pool_size junk needs_drop slot_ref)
      ]),
      s,
    )

  abbrev pub keep_stream_running : ℕ → Atomic → Bool
  keep_stream_running stream_id s =
      Streams.keep_stream_running MAX_STREAMS sort w stream_id s.streams_manager

  abbrev pub register_stream_waker : ℕ → w.Waker → Atomic → Atomic
  register_stream_waker stream_id waker =
      on_streams (Streams.register_stream_waker MAX_STREAMS sort w stream_id waker)

  abbrev pub drop_resources : ℕ → Run Atomic (Unit {0})
  drop_resources stream_id =
      run_streams (Streams.report_stream_dropped MAX_STREAMS sort w stream_id)

  abbrev pub consumer : ChannelConsumer Atomic OgreUnique w
  unfolding consume
  consumer = record {
    consume = consume;
    keep_stream_running = keep_stream_running;
    register_stream_waker = register_stream_waker;
    drop_resources = drop_resources;
  }

  -- With no slot leaked and as many slots as the queue has room for at most: `send` stores the event in
  -- a slot, as the last one, and wakes as the movable Atomic channel does;
  -- when every slot is taken the event comes back.
  pub zero_copy_atomic_send-Offered :
      (item : D) (s : Atomic)
      → pool_size ≤ BUFFER_SIZE
      → IsStocked c queue pool_size [] s.channel
      → (answer : Sent D) × (s' : Atomic) × (send item s ≡ some (answer, s'))
        × IsStocked c queue pool_size [] s'.channel
        × Offered pool_size
            (contents c queue pool_size junk)
            (λ n. wake_for (n + 1))
            item
            item
            s
            s'
            answer
  unfolding send
  zero_copy_atomic_send-Offered item s fits v =
      offer-Offered pool_size (contents c queue pool_size junk) (IsStocked c queue pool_size [])
        (ZeroCopy.publish_movable c queue pool_size junk needs_drop) wake_for
        (λ n. wake_for (n + 1)) item s (λ n lt. refl)
        (zero_copy_publish_refines c queue pool_size junk needs_drop item s.channel fits v)
