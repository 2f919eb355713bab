-- ===== src/Channels.antt =====
-- What the channels of src/uni/channels and src/multi/channels share: the pair of a StreamsManagerBase
-- and the container of the events, and what a sender is answered.
pub mod Stream
pub mod Ending
use reactive_mutiny.Common.{ℕ, Option, none, some, Run}
use reactive_mutiny.Streams.{Wakers, StreamsManager}

-- `RetryResult` of keen_retry, as the producers build it: the event was sent, or its input comes back.
pub data Sent {ℓ} (I : Type ℓ) : Type ℓ where
  ok : Sent I
  transient : I → Sent I

pub record Channel {ℓ} (C : Type ℓ) (w : Wakers) : Type ℓ where
  pub streams_manager : StreamsManager w
  pub channel : C

module _ {ℓ} {C : Type ℓ} {w : Wakers} where
  -- Calls of the streams manager and of the container, through the channel's state.
  abbrev pub on_streams : (StreamsManager w → StreamsManager w) → Channel C w → Channel C w
  on_streams f s = record { streams_manager = f s.streams_manager; channel = s.channel }

  abbrev pub run_streams {κ} : {X : Type κ} → Run (StreamsManager w) X → Run (Channel C w) X
  run_streams m s = elim (m s.streams_manager) [
    | none ↦ none
    | some (x, manager) ↦ some (x, record { streams_manager = manager; channel = s.channel })
  ]

  abbrev pub run_channel {κ} : {X : Type κ} → Run C X → Run (Channel C w) X
  run_channel m s = elim (m s.channel) [
    | none ↦ none
    | some (x, c) ↦ some (x, record { streams_manager = s.streams_manager; channel = c })
  ]
