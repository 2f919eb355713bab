-- ===== src/Uni/Movable.antt =====
-- The movable Uni channels keep the promise of a Uni channel.
use reactive_mutiny.Common.{ℕ, ◌≡◌, refl, some, List, ◌++◌, IsRingSize}
use reactive_mutiny.Fifo
use reactive_mutiny.Container.{MoveContainer}
use reactive_mutiny.FullSync.Move.Container.{full_sync_move}
use reactive_mutiny.Atomic.Move.Container.{atomic_move}
use reactive_mutiny.Streams.{Wakers, Sort, StreamsManager}
use reactive_mutiny.Channels.{Sent, Channel, run_channel}
use reactive_mutiny.Uni.Sending.{Offered, accepted, refused}
use reactive_mutiny.Uni.Delivery.{
  UniChannel, Stored, added, left_out, Call, Log, run, events, run-delivers,
}
use reactive_mutiny.Uni.FullSync
use reactive_mutiny.Uni.FullSync.{full_sync_send-Offered}
use reactive_mutiny.Uni.Atomic
use reactive_mutiny.Uni.Atomic.{atomic_send-Offered}

pub stores {ℓ} :
    {A C : Type ℓ} {w : Wakers} {capacity : ℕ} {contents : C → List A}
    {wake : ℕ → StreamsManager w → StreamsManager w} {item : A} {s s' : Channel C w}
    (answer : Sent A)
    → Offered capacity contents wake item item s s' answer
    → Stored item (contents s.channel) (contents s'.channel) answer
stores _ (accepted room e woken) = added e
stores _ (refused full e same) = left_out e

module _ {ℓ} {A : Type ℓ} (c : MoveContainer A) {w : Wakers} where
  pub consume_through :
      (s : Channel (c.State) w)
      → c.IsReady s.channel
      → (s' : Channel (c.State) w) × (run_channel c.consume_movable s
          ≡ some ((Fifo.consume (c.contents s.channel)).0, s'))
        × (c.contents s'.channel ≡ (Fifo.consume (c.contents s.channel)).1)
        × c.IsReady s'.channel
  consume_through s v =
      let (q, e, left, v') = c.consume_refines s.channel v in
      (
        record { streams_manager = s.streams_manager; channel = q },
        rw (run_channel, e) refl,
        left,
        v',
      )

module _ {ℓ} {A : Type ℓ} (d : A) (BUFFER_SIZE : ℕ) (sz : IsRingSize BUFFER_SIZE) (MAX_STREAMS : ℕ)
    (sort : Sort) (w : Wakers) where
  abbrev pub full_sync_channel : UniChannel A w
  full_sync_channel = record {
    State = FullSync.FullSync A w;
    send = FullSync.send d BUFFER_SIZE MAX_STREAMS sort w;
    consumer = FullSync.consumer d BUFFER_SIZE MAX_STREAMS sort w;
    contents = λ s. (full_sync_move d BUFFER_SIZE sz).contents s.channel;
    IsReady = λ s. (full_sync_move d BUFFER_SIZE sz).IsReady s.channel;
    send_stores = λ item s v.
        let (answer, s', e, v', o) =
          full_sync_send-Offered d BUFFER_SIZE MAX_STREAMS sort w sz item s v in
        (answer, s', e, v', stores answer o);
    consume_refines = λ i s v. consume_through (full_sync_move d BUFFER_SIZE sz) s v;
    register_keeps = λ i waker s v. (refl, v);
  }

  abbrev pub atomic_channel : UniChannel A w
  atomic_channel = record {
    State = Atomic.Atomic A w;
    send = Atomic.send d BUFFER_SIZE MAX_STREAMS sort w;
    consumer = Atomic.consumer d BUFFER_SIZE MAX_STREAMS sort w;
    contents = λ s. (atomic_move d BUFFER_SIZE sz).contents s.channel;
    IsReady = λ s. (atomic_move d BUFFER_SIZE sz).IsReady s.channel;
    send_stores = λ item s v.
        let (answer, s', e, v', o) =
          atomic_send-Offered d BUFFER_SIZE MAX_STREAMS sort w sz item s v in
        (answer, s', e, v', stores answer o);
    consume_refines = λ i s v. consume_through (atomic_move d BUFFER_SIZE sz) s v;
    register_keeps = λ i waker s v. (refl, v);
  }

  -- Over a FullSync channel that is ready, any sequence of sends and polls by any streams returns and
  -- leaves it ready. The events that
  -- were in the channel, followed by those accepted, are the events that the streams got, followed by
  -- those still in the channel: each is delivered once, to one stream, in the order of the sends.
  pub full_sync_channel_delivers :
      (calls : List (Call full_sync_channel)) (s : FullSync.FullSync A w)
      → full_sync_channel.IsReady s
      → (log : Log full_sync_channel) × (s' : FullSync.FullSync A w) × (run full_sync_channel calls
            s
          ≡ some (log, s'))
        × full_sync_channel.IsReady s'
        × (full_sync_channel.contents s ++ log.sent
            ≡ events full_sync_channel log.received ++ full_sync_channel.contents s')
  full_sync_channel_delivers calls s v = run-delivers full_sync_channel calls s v

  -- Over an Atomic channel that is ready, any sequence of sends and polls by any streams, one call at
  -- a time, returns and leaves it ready. The events that were in the channel, followed by those accepted, are the events that the
  -- streams got, followed by those still in the channel.
  pub atomic_channel_delivers :
      (calls : List (Call atomic_channel)) (s : Atomic.Atomic A w)
      → atomic_channel.IsReady s
      → (log : Log atomic_channel) × (s' : Atomic.Atomic A w) × (run atomic_channel calls s
          ≡ some (log, s'))
        × atomic_channel.IsReady s'
        × (atomic_channel.contents s ++ log.sent
            ≡ events atomic_channel log.received ++ atomic_channel.contents s')
  atomic_channel_delivers calls s v = run-delivers atomic_channel calls s v
