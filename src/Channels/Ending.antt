-- ===== src/Channels/Ending.antt =====
-- StreamsManagerBase.flush, end_stream and end_all_streams of src/streams_manager.rs, over the channel
-- that hands them the counter of its pending events.
pub mod Draining
use reactive_mutiny.Common.{
  ℕ, zero, suc, ◌%◌, ◌^◌, Bool, true, false, Option, none, some, List, [], ◌∷◌, ◌++◌, ltb, ◌==◌,
  ◌&&◌, ◌||◌, if◌then◌else◌,
}
use reactive_mutiny.FullSync.Move
use reactive_mutiny.Streams
use reactive_mutiny.Streams.{Wakers, Sort, StreamsManager}
use reactive_mutiny.Channels.{Channel, on_streams}

-- One sleep of a millisecond: what the rest of the program does meanwhile, and whether more than the
-- timeout has elapsed when the code next looks at the clock.
pub record Sleep {ℓ} (S : Type ℓ) : Type ℓ where
  pub others : S → S
  pub late : Bool

-- The answer, the sleeps that were not slept, and the state.
pub record Ended {ℓ} (X : Type 0) (S : Type ℓ) : Type ℓ where
  pub answer : X
  pub sleeps : List (Sleep S)
  pub state : S

-- `timed` says that `timeout` is not zero. A call that outlasts the list of sleeps has the result `none`.
module _ {ℓ} {C : Type ℓ} {w : Wakers} (MAX_STREAMS : ℕ) (sort : Sort) (timed : Bool)
    (pending_items_counter : Channel C w → ℕ) where
  -- The loop of `flush`; `started` says that `start` was set.
  flush_loop : Bool → List (Sleep (Channel C w)) → Channel C w → Option (Ended ℕ (Channel C w))
  flush_loop started [] s =
      if pending_items_counter s == 0
      then some (record { answer = 0; sleeps = []; state = s })
      else none
  flush_loop started (sleep ∷ sleeps) s =
      let pending = pending_items_counter s in
      let next = sleep.others (on_streams (Streams.wake_all_streams MAX_STREAMS sort w) s) in
      let again = flush_loop true sleeps next in
      if pending == 0
      then some (record { answer = 0; sleeps = sleep ∷ sleeps; state = s })
      else if timed && (started && sleep.late)
      then some (record { answer = pending; sleeps = sleeps; state = next })
      else again

  pub flush : List (Sleep (Channel C w)) → Channel C w → Option (Ended ℕ (Channel C w))
  unfolding flush_loop
  flush = flush_loop false

  has : ℕ → List ℕ → Bool
  has stream_id [] = false
  has stream_id (i ∷ ids) = (i == stream_id) || has stream_id ids

  pub is_vacant : ℕ → Channel C w → Bool
  unfolding has
  is_vacant stream_id s =
      let (front, back) = Move.peek_remaining 0 MAX_STREAMS s.streams_manager.vacant_streams in
      has stream_id (front ++ back)

  -- The loop of `end_stream`. Its debug_assert, that the stream is not vacant at the start, is left out.
  end_loop : ℕ → List (Sleep (Channel C w)) → Channel C w → Option (Ended Bool (Channel C w))
  unfolding is_vacant
  end_loop stream_id [] s = none
  end_loop stream_id (sleep ∷ sleeps) s =
      let next = sleep.others (on_streams (Streams.wake_stream MAX_STREAMS sort w stream_id) s) in
      let again = end_loop stream_id sleeps next in
      if is_vacant stream_id next
      then some (record { answer = true; sleeps = sleeps; state = next })
      else if timed && sleep.late
      then some (record { answer = false; sleeps = sleeps; state = next })
      else again

  pub end_stream : ℕ → List (Sleep (Channel C w)) → Channel C w → Option (Ended Bool (Channel C w))
  unfolding flush end_loop
  end_stream stream_id sleeps s = elim (flush sleeps s) [
    | none ↦ none
    | some flushed ↦
        end_loop stream_id flushed.sleeps
          (on_streams (Streams.cancel_stream MAX_STREAMS sort w stream_id) flushed.state)
  ]

  running : Channel C w → ℕ
  running s = Streams.running_streams_count MAX_STREAMS sort w s.streams_manager

  -- The loop of `end_all_streams`, which looks at the clock before it sleeps: `late_now` is what it finds.
  end_all_loop : Bool → List (Sleep (Channel C w)) → Channel C w → Option (Ended ℕ (Channel C w))
  unfolding running
  end_all_loop late_now [] s =
      if ltb 0 (running s)
      then (if timed && late_now
          then some (record { answer = running s; sleeps = []; state = s })
          else none)
      else some (record { answer = running s; sleeps = []; state = s })
  end_all_loop late_now (sleep ∷ sleeps) s =
      let again = end_all_loop sleep.late sleeps (sleep.others s) in
      if ltb 0 (running s)
      then (if timed && late_now
          then some (record { answer = running s; sleeps = sleep ∷ sleeps; state = s })
          else again)
      else some (record { answer = running s; sleeps = sleep ∷ sleeps; state = s })

  -- A second flush only after one that timed out.
  pub end_all_streams :
      List (Sleep (Channel C w)) → Bool → Channel C w → Option (Ended ℕ (Channel C w))
  unfolding flush end_all_loop
  end_all_streams sleeps late_now s = elim (flush sleeps s) [
    | none ↦ none
    | some flushed ↦
        let cancelled = on_streams (Streams.cancel_all_streams MAX_STREAMS sort w) flushed.state in
        elim (if ltb 0 flushed.answer then flush flushed.sleeps cancelled else some flushed) [
          | none ↦ none
          | some settled ↦
              end_all_loop late_now settled.sleeps
                (on_streams (Streams.cancel_all_streams MAX_STREAMS sort w) settled.state)
        ]
  ]
