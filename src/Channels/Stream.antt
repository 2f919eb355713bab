-- ===== src/Channels/Stream.antt =====
-- MutinyStream of src/mutiny_stream.rs: one stream of a channel, polled by an executor.
use reactive_mutiny.Common.{
  ℕ, ◌≡◌, refl, Bool, true, false, Option, none, some, Run, ◌>>=◌, if◌then◌else◌, Bool-cases, inl,
  inr,
}
use reactive_mutiny.Streams.{Wakers}

-- The trait ChannelConsumer of src/types.rs.
pub record ChannelConsumer {ℓ} (S A : Type ℓ) (w : Wakers) : Type (ℓ ⊔ 1) where
  pub consume : ℕ → Run S (Option A)
  pub keep_stream_running : ℕ → S → Bool
  pub register_stream_waker : ℕ → w.Waker → S → S
  pub drop_resources : ℕ → Run S (Unit {0})

-- `Poll<Option<…>>` of std: `ready none` ends the stream.
pub data Poll {ℓ} (A : Type ℓ) : Type ℓ where
  ready : Option A → Poll A
  pending : Poll A

pub record MutinyStream : Type 0 where
  pub stream_id : ℕ

module _ {ℓ} {S A : Type ℓ} {w : Wakers} (events_source : ChannelConsumer S A w) where
  unfoldable pub poll_next : MutinyStream → w.Waker → Run S (Poll A)
  poll_next stream waker = do
    event ← events_source.consume stream.stream_id
    λ s. elim event [
      | some item ↦ some (ready (some item), s)
      | none ↦
          if events_source.keep_stream_running stream.stream_id s
          then some (pending, events_source.register_stream_waker stream.stream_id waker s)
          else some (ready none, s)
    ]

  abbrev pub drop : MutinyStream → Run S (Unit {0})
  drop stream = events_source.drop_resources stream.stream_id

  -- How a poll ends: with an event that the source had; pending, with the waker registered; or at the
  -- end, where the source had no event and told the stream to end.
  pub data Polled (stream : MutinyStream) (waker : w.Waker) (s s' : S) : Poll A → Type ℓ where
    delivered :
        (item : A)
        → events_source.consume stream.stream_id s ≡ some (some item, s')
        → Polled stream waker s s' (ready (some item))
    waits :
        (before : S)
        → events_source.consume stream.stream_id s ≡ some (none, before)
        → events_source.keep_stream_running stream.stream_id before ≡ true
        → s' ≡ events_source.register_stream_waker stream.stream_id waker before
        → Polled stream waker s s' pending
    ended :
        events_source.consume stream.stream_id s ≡ some (none, s')
        → events_source.keep_stream_running stream.stream_id s' ≡ false
        → Polled stream waker s s' (ready none)

  pub poll_next-Polled :
      (stream : MutinyStream) (waker : w.Waker) (s : S) (event : Option A) (before : S)
      → events_source.consume stream.stream_id s ≡ some (event, before)
      → (p : Poll A) × (s' : S) × (poll_next stream waker s ≡ some (p, s'))
        × Polled stream waker s s' p
  unfolding poll_next
  poll_next-Polled stream waker s (some item) before e =
      (ready (some item), before, rw (e, ◌>>=◌) refl, delivered item e)
  poll_next-Polled stream waker s none before e =
      elim (Bool-cases (events_source.keep_stream_running stream.stream_id before)) [
        | inl runs ↦ (
          pending,
          events_source.register_stream_waker stream.stream_id waker before,
          rw (e, ◌>>=◌) (rw runs refl),
          waits before e runs refl,
        )
        | inr over ↦ (ready none, before, rw (e, ◌>>=◌) (rw over refl), ended e over)
      ]
