-- ===== src/Multi/Fanout.antt =====
-- Sending one event to each used stream's own queue, as the arc channels of src/multi/channels/arc do.
-- The `Arc` of std that holds the event is not told apart from the event: a clone is the same event.
pub mod Rounds
pub mod Delivery
use reactive_mutiny.Common.{
  ℕ, ◌%◌, ◌^◌, Bool, true, false, Option, none, some, List, [], ◌∷◌, length, get_or, set, replicate,
  ltb, leb, ◌==◌, if◌then◌else◌, Run, ◌>>=◌,
}
use reactive_mutiny.Container.{MoveContainer}
use reactive_mutiny.Streams
use reactive_mutiny.Streams.{u32_max, Wakers, Sort, StreamsManager}
use reactive_mutiny.Channels.{Sent, ok, Channel}

-- `c` is the queue that each stream has, and `wake_up_to` the largest length after an event for which
-- the queue's stream is woken.
module _ {ℓ} {A : Type ℓ} (c : MoveContainer A) (wake_up_to MAX_STREAMS : ℕ) (sort : Sort)
    (w : Wakers) where
  abbrev pub Fanout : Type ℓ
  Fanout = Channel (List (c.State)) w

  pub new : Option Fanout
  new = elim (Streams.new MAX_STREAMS sort w) [
    | none ↦ none
    | some manager ↦
        some (record { streams_manager = manager; channel = replicate MAX_STREAMS c.new })
  ]

  -- The longest queue of a used stream.
  longest : List ℕ → Fanout → ℕ
  longest [] s = 0
  longest (stream_id ∷ ids) s =
      let n = c.available_elements_count (get_or s.channel stream_id c.new) in
      let m = longest ids s in if stream_id == u32_max then 0 else if ltb m n then n else m

  pub pending_items_count : Fanout → ℕ
  unfolding longest
  pending_items_count s = longest s.streams_manager.used_streams s % 2 ^ 32

  abbrev pub woken : ℕ → Fanout → Fanout
  woken stream_id s = record s {
    streams_manager = Streams.wake_stream MAX_STREAMS sort w stream_id s.streams_manager;
  }

  -- One round of the loop over one stream's queue: whether the event was published.
  unfoldable pub try_publish : ℕ → A → Run Fanout Bool
  try_publish stream_id item s =
      if ltb stream_id (length s.channel)
      then elim (c.publish_movable item (get_or s.channel stream_id c.new)) [
        | none ↦ none
        | some (answer, queue) ↦ elim answer.0 [
          | some len_after ↦ some (
            true,
            (if leb len_after wake_up_to
                then woken stream_id (record s { channel = set s.channel stream_id queue })
                else record s { channel = set s.channel stream_id queue }),
          )
          | none ↦
              some (false, woken stream_id (record s { channel = set s.channel stream_id queue }))
        ]
      ]
      else none

  -- The list holds what other threads do while the sender sleeps, each time that the queue is full.
  unfoldable pub publish_to : List (Fanout → Fanout) → ℕ → A → Run Fanout (Unit {0})
  unfolding try_publish
  publish_to [] stream_id item = do
    done ← try_publish stream_id item
    λ s. elim done [ true ↦ some (tt, s) | false ↦ none ]
  publish_to (others ∷ rounds) stream_id item = do
    done ← try_publish stream_id item
    λ s. elim done [ true ↦ some (tt, s) | false ↦ publish_to rounds stream_id item (others s) ]

  unfoldable pub publish_each : (ℕ → List (Fanout → Fanout)) → List ℕ → A → Run Fanout (Unit {0})
  unfolding publish_to
  publish_each rounds [] item s = some (tt, s)
  publish_each rounds (stream_id ∷ ids) item s =
      let rest =
        (publish_to (rounds stream_id) stream_id item >>= λ _. publish_each rounds ids item) s in
      if stream_id == u32_max then some (tt, s) else rest

  unfoldable pub send_derived : (ℕ → List (Fanout → Fanout)) → A → Run Fanout Bool
  unfolding publish_each
  send_derived rounds item s =
      (publish_each rounds s.streams_manager.used_streams item >>= λ _ s'. some (true, s')) s

  -- What `send_derived` answers is not looked at.
  unfoldable pub send : (ℕ → List (Fanout → Fanout)) → A → Run Fanout (Sent A)
  send rounds item = do _ ← send_derived rounds item; λ s. some (ok, s)

  -- The setter fills an uninitialised item.
  abbrev pub send_with : (ℕ → List (Fanout → Fanout)) → A → (A → A) → Run Fanout (Sent (A → A))
  send_with rounds uninit setter = do _ ← send_derived rounds (setter uninit); λ s. some (ok, s)

  unfoldable pub consume : ℕ → Run Fanout (Option A)
  consume stream_id s =
      if ltb stream_id (length s.channel)
      then elim (c.consume_movable (get_or s.channel stream_id c.new)) [
        | none ↦ none
        | some (event, queue) ↦ some (event, record s { channel = set s.channel stream_id queue })
      ]
      else none
