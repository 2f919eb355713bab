-- ===== src/Uni/Delivery.antt =====
-- What a Uni channel promises to its senders and its streams, and what follows for any sequence of
-- sends and polls.
use mathlib.Core.List.{append_assoc, append-nil}
use reactive_mutiny.Common.{
  ℕ, ◌≡◌, refl, sym, ap, ◌∙◌, none, some, List, [], ◌∷◌, ◌++◌, Run, ◌>>=◌, Bool-cases, inl, inr,
}
use reactive_mutiny.Fifo
use reactive_mutiny.Streams.{Wakers}
use reactive_mutiny.Channels.{Sent, ok, transient}
use reactive_mutiny.Channels.Stream.{ChannelConsumer, MutinyStream, Poll, ready, pending, poll_next}

-- How a send ends, seen from the events in the channel.
pub data Stored {ℓ} {A : Type ℓ} (item : A) (before after : List A) : Sent A → Type ℓ where
  added : after ≡ before ++ (item ∷ []) → Stored item before after ok
  left_out : after ≡ before → Stored item before after (transient item)

pub record UniChannel {ℓ} (A : Type ℓ) (w : Wakers) : Type (ℓ + 1) where
  pub State : Type ℓ
  pub send : A → Run State (Sent A)
  pub consumer : ChannelConsumer State A w
  pub contents : State → List A
  pub IsReady : State → Type 0
  pub send_stores :
      (item : A) (s : State)
      → IsReady s
      → (answer : Sent A) × (s' : State) × (send item s ≡ some (answer, s'))
        × IsReady s'
        × Stored item (contents s) (contents s') answer
  pub consume_refines :
      (stream_id : ℕ) (s : State)
      → IsReady s
      → (s' : State) × (consumer.consume stream_id s ≡ some ((Fifo.consume (contents s)).0, s'))
        × (contents s' ≡ (Fifo.consume (contents s)).1)
        × IsReady s'
  pub register_keeps :
      (stream_id : ℕ) (waker : w.Waker) (s : State)
      → IsReady s
      → (contents (consumer.register_stream_waker stream_id waker s) ≡ contents s)
        × IsReady (consumer.register_stream_waker stream_id waker s)

module _ {ℓ} {A : Type ℓ} {w : Wakers} (u : UniChannel A w) where
  pub data Call : Type ℓ where
    sends : A → Call
    polls : MutinyStream → w.Waker → Call

  -- The events that were accepted, and the ones that the streams got, with the streams' ids.
  pub record Log : Type ℓ where
    pub sent : List A
    pub received : List (ℕ × A)

  abbrev note_sent : A → Sent A → Log → Log
  note_sent item ok log = record log { sent = item ∷ log.sent }
  note_sent item (transient it) log = log

  abbrev note_received : ℕ → Poll A → Log → Log
  note_received stream_id (ready (some item)) log = record log {
    received = (stream_id, item) ∷ log.received;
  }
  note_received stream_id (ready none) log = log
  note_received stream_id pending log = log

  unfoldable pub run : List Call → Run (u.State) Log
  run [] = λ s. some (record { sent = []; received = [] }, s)
  run (sends item ∷ calls) = do
    answer ← u.send item
    log ← run calls
    λ s. some (note_sent item answer log, s)
  run (polls stream waker ∷ calls) = do
    p ← poll_next u.consumer stream waker
    log ← run calls
    λ s. some (note_received stream.stream_id p log, s)

  abbrev pub events : List (ℕ × A) → List A
  events [] = []
  events ((stream_id, item) ∷ received) = item ∷ events received

  -- What a poll does to the events.
  abbrev Taken : ℕ → Poll A → List A → List A → Type ℓ
  Taken stream_id (ready (some item)) before after = before ≡ item ∷ after
  Taken stream_id (ready none) before after = before ≡ after
  Taken stream_id pending before after = before ≡ after

  poll_takes :
      (stream : MutinyStream) (waker : w.Waker) (s : u.State)
      → u.IsReady s
      → (p : Poll A) × (s' : u.State) × (poll_next u.consumer stream waker s ≡ some (p, s'))
        × u.IsReady s'
        × Taken stream.stream_id p (u.contents s) (u.contents s')
  unfolding Fifo.consume poll_next
  poll_takes stream waker s v =
      let (s', e, left, v') = u.consume_refines stream.stream_id s v in
      go (u.contents s) refl s' e left v'
    where
      go :
          (q : List A)
          → u.contents s ≡ q
          → (s' : u.State)
          → u.consumer.consume stream.stream_id s ≡ some ((Fifo.consume (u.contents s)).0, s')
          → u.contents s' ≡ (Fifo.consume (u.contents s)).1
          → u.IsReady s'
          → (p : Poll A) × (s' : u.State) × (poll_next u.consumer stream waker s ≡ some (p, s'))
            × u.IsReady s'
            × Taken stream.stream_id p (u.contents s) (u.contents s')
      go [] eq s' e left v' =
          elim (Bool-cases (u.consumer.keep_stream_running stream.stream_id s')) [
            | inl runs ↦ (
              pending,
              u.consumer.register_stream_waker stream.stream_id waker s',
              (let e' = rw eq at e in rw (◌>>=◌, e', runs) refl),
              (u.register_keeps stream.stream_id waker s' v').1,
              eq ∙ sym ((u.register_keeps stream.stream_id waker s' v').0 ∙ rw eq at left),
            )
            | inr over ↦ (
              ready none,
              s',
              (let e' = rw eq at e in rw (◌>>=◌, e', over) refl),
              v',
              eq ∙ sym (rw eq at left),
            )
          ]
      go (x ∷ q) eq s' e left v' = (
        ready (some x),
        s',
        (let e' = rw eq at e in rw (◌>>=◌, e') refl),
        v',
        eq ∙ ap (λ l. x ∷ l) (sym (rw eq at left)),
      )

  after_send :
      (item : A) (answer : Sent A) (log : Log) (before after rest : List A)
      → Stored item before after answer
      → after ++ log.sent ≡ events log.received ++ rest
      → before ++ (note_sent item answer log).sent
        ≡ events (note_sent item answer log).received ++ rest
  after_send item _ log before after rest (added e) h =
      sym (append_assoc before (item ∷ []) log.sent) ∙ ap (λ l. l ++ log.sent) (sym e) ∙ h
  after_send item _ log before after rest (left_out e) h = ap (λ l. l ++ log.sent) (sym e) ∙ h

  after_poll :
      (stream_id : ℕ) (p : Poll A) (log : Log) (before after rest : List A)
      → Taken stream_id p before after
      → after ++ log.sent ≡ events log.received ++ rest
      → before ++ (note_received stream_id p log).sent
        ≡ events (note_received stream_id p log).received ++ rest
  after_poll i (ready (some x)) log before after rest e h =
      ap (λ l. l ++ log.sent) e ∙ ap (λ l. x ∷ l) h
  after_poll i (ready none) log before after rest e h = ap (λ l. l ++ log.sent) e ∙ h
  after_poll i pending log before after rest e h = ap (λ l. l ++ log.sent) e ∙ h

  -- Any sequence of sends and polls returns. The events that were in the channel, followed by those
  -- that were accepted, are the events that the streams got, followed by those still in the channel:
  -- each event is delivered once, to one stream, in the order of the sends.
  pub run-delivers :
      (calls : List Call) (s : u.State)
      → u.IsReady s
      → (log : Log) × (s' : u.State) × (run calls s ≡ some (log, s'))
        × u.IsReady s'
        × (u.contents s ++ log.sent ≡ events log.received ++ u.contents s')
  unfolding run
  run-delivers [] s v = (record { sent = []; received = [] }, s, refl, v, append-nil (u.contents s))
  run-delivers (sends item ∷ calls) s v =
      let (answer, s1, e, v1, st) = u.send_stores item s v in
      let (log, s2, e', v2, same) = run-delivers calls s1 v1 in
      (
        note_sent item answer log,
        s2,
        rw (◌>>=◌, e, e') refl,
        v2,
        after_send item answer log (u.contents s) (u.contents s1) (u.contents s2) st same,
      )
  run-delivers (polls stream waker ∷ calls) s v =
      let (p, s1, e, v1, took) = poll_takes stream waker s v in
      let (log, s2, e', v2, same) = run-delivers calls s1 v1 in
      (
        note_received stream.stream_id p log,
        s2,
        rw (◌>>=◌, e, e') refl,
        v2,
        after_poll stream.stream_id p log (u.contents s) (u.contents s1) (u.contents s2) took same,
      )
