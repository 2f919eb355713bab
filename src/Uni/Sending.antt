-- ===== src/Uni/Sending.antt =====
-- What a send to a Uni channel does, over any bounded queue of events.
use reactive_mutiny.Common.{
  ℕ, leb, sub_u32, arith, ◌%◌, ◌^◌, if◌then◌else◌, ◌+◌, ◌<◌, ◌≤◌, ◌≡◌, refl, Option, none, some,
  List, [], ◌∷◌, ◌++◌, length, ltb, Run, ◌>>=◌, Bool-cases, inl, inr, ltb→lt, not_ltb→le,
}
use reactive_mutiny.Fifo
use reactive_mutiny.Streams.{Wakers, Sort, StreamsManager, wake_stream}
use reactive_mutiny.Channels.{Sent, ok, transient, Channel, on_streams, run_channel}

-- The body that the sends of the Uni channels share.
abbrev pub offer {ℓ} :
    {A C : Type ℓ} {w : Wakers}
    → (A → Run C (Option ℕ × Option A))
    → (ℕ → StreamsManager w → StreamsManager w)
    → A
    → Run (Channel C w) (Sent A)
offer publish_movable wake item = do
  answer ← run_channel (publish_movable item)
  λ s. elim answer.0 [
    | some len_after ↦ some (ok, on_streams (wake len_after) s)
    | none ↦ elim answer.1 [ none ↦ none | some it ↦ some (transient it, s) ]
  ]

-- An event that comes after `n` others wakes the stream whose id is `n`, where there are so many streams.
abbrev pub next_stream_woken : ℕ → Sort → (w : Wakers) → ℕ → StreamsManager w → StreamsManager w
next_stream_woken MAX_STREAMS sort w n manager =
    if ltb n (MAX_STREAMS % 2 ^ 32) then wake_stream MAX_STREAMS sort w n manager else manager

-- The same in terms of the number of events after it, up to the largest 32-bit word.
pub next_stream_woken_after :
    (MAX_STREAMS : ℕ) (sort : Sort) (w : Wakers) (n : ℕ) (manager : StreamsManager w)
    → n + 1 < 2 ^ 32
    → (if leb (n + 1) (MAX_STREAMS % 2 ^ 32)
        then wake_stream MAX_STREAMS sort w (sub_u32 (n + 1) 1) manager
        else manager)
      ≡ next_stream_woken MAX_STREAMS sort w n manager
next_stream_woken_after MAX_STREAMS sort w n manager word =
    let id : sub_u32 (n + 1) 1 ≡ n = omega (arith, word) in
    let test : leb (n + 1) (MAX_STREAMS % 2 ^ 32) ≡ ltb n (MAX_STREAMS % 2 ^ 32) = ground arith in
    rw (id, test) refl

module _ {ℓ} {A C : Type ℓ} {w : Wakers} (capacity : ℕ) (contents : C → List A) where
  -- How a send ends: the event is last in the channel, and the streams were woken for the number of events
  -- that were there before; or the channel is full, nothing changes and nobody is woken, and the input comes back.
  pub data Offered {I : Type ℓ} (wake : ℕ → StreamsManager w → StreamsManager w) (item : A)
      (input : I) (s s' : Channel C w) : Sent I → Type ℓ where
    accepted :
        length (contents s.channel) < capacity
        → contents s'.channel ≡ contents s.channel ++ (item ∷ [])
        → s'.streams_manager ≡ wake (length (contents s.channel)) s.streams_manager
        → Offered wake item input s s' ok
    refused :
        capacity ≤ length (contents s.channel)
        → contents s'.channel ≡ contents s.channel
        → s'.streams_manager ≡ s.streams_manager
        → Offered wake item input s s' (transient input)

  pub offer-Offered :
      (Ready : C → Type 0) (publish_movable : A → Run C (Option ℕ × Option A))
      (wake awoken : ℕ → StreamsManager w → StreamsManager w) (item : A) (s : Channel C w)
      → ((n : ℕ) → n < capacity → wake (n + 1) s.streams_manager ≡ awoken n s.streams_manager)
      → ((q : C) × (publish_movable item s.channel
            ≡ some ((Fifo.publish capacity item (contents s.channel)).0, q))
          × (contents q ≡ (Fifo.publish capacity item (contents s.channel)).1)
          × Ready q)
      → (answer : Sent A) × (s' : Channel C w) × (offer publish_movable wake item s
          ≡ some (answer, s'))
        × Ready s'.channel
        × Offered awoken item item s s' answer
  unfolding Fifo.publish
  offer-Offered Ready publish_movable wake awoken item s same (q, e, now, v) =
      elim (Bool-cases (ltb (length (contents s.channel)) capacity)) [
        | inl room ↦ (
          ok,
          record {
            streams_manager = wake (length (contents s.channel) + 1) s.streams_manager;
            channel = q;
          },
          (let e' = rw room at e in rw (e', ◌>>=◌) refl),
          v,
          accepted (ltb→lt _ _ room) (rw room at now) (same _ (ltb→lt _ _ room)),
        )
        | inr full ↦ (
          transient item,
          record { streams_manager = s.streams_manager; channel = q },
          (let e' = rw full at e in rw (e', ◌>>=◌) refl),
          v,
          refused (not_ltb→le _ _ full) (rw full at now) refl,
        )
      ]
