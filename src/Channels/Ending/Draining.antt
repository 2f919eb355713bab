-- ===== src/Channels/Ending/Draining.antt =====
-- Flushing and ending: what the answers say, and that the calls return while the streams make progress.
use reactive_mutiny.Common.{
  count, IsRingSize, ◌∙◌, if◌then◌else◌, ℕ, ◌<◌, ◌≤◌, ◌≡◌, refl, Bool, true, false, Bool-cases, inl,
  inr, some, List, [], ◌∷◌, arith, length, ltb, ◌==◌, ◌&&◌,
}
use reactive_mutiny.Streams.{
  Wakers, Sort, wake_all_streams, cancel_all_streams, running_streams_count, keep_stream_running,
}
use reactive_mutiny.Streams.Lifecycle.{IsManaged}
use reactive_mutiny.Streams.Cancel.{cancel_all_streams_ends}
use reactive_mutiny.Channels.{Channel, on_streams}
use reactive_mutiny.Channels.Ending.{
  Sleep, Ended, flush_loop, flush, end_all_loop, end_all_streams, running,
}

module _ {ℓ} {C : Type ℓ} {w : Wakers} (MAX_STREAMS : ℕ) (sort : Sort) (timed : Bool)
    (pending_items_counter : Channel C w → ℕ) where
  -- While streams that are woken make progress, each sleep leaves fewer pending events.
  abbrev pub Drains : List (Sleep (Channel C w)) → Type ℓ
  Drains [] = Unit
  Drains (sleep ∷ sleeps) =
      ((s : Channel C w)
        → 0 < pending_items_counter s
        → pending_items_counter (sleep.others (on_streams (wake_all_streams MAX_STREAMS sort w) s))
          < pending_items_counter s)
      × (sleep.late ≡ false)
      × Drains sleeps

  never_late : (started : Bool) → (timed && (started && false)) ≡ false
  never_late started = ground arith

  flush_loop_returns :
      (started : Bool) (sleeps : List (Sleep (Channel C w))) (s : Channel C w)
      → Drains sleeps
      → pending_items_counter s ≤ length sleeps
      → (e : Ended ℕ (Channel C w)) × (flush_loop MAX_STREAMS sort timed pending_items_counter
            started sleeps s
          ≡ some e)
        × (e.answer ≡ 0)
        × (pending_items_counter e.state ≡ 0)
  unfolding flush_loop
  flush_loop_returns started [] s h le = (
    record { answer = 0; sleeps = []; state = s },
    (let e : (pending_items_counter s == 0) ≡ true = ground (arith, le) in rw e refl),
    refl,
    omega (arith, le),
  )
  flush_loop_returns started (sleep ∷ sleeps) s h le =
      elim (Bool-cases (pending_items_counter s == 0)) [
        | inl none_left ↦ (
          record { answer = 0; sleeps = sleep ∷ sleeps; state = s },
          rw none_left refl,
          refl,
          ground arith,
        )
        | inr some_left ↦
            let fewer = h.0 s (ground arith) in
            let (e, r, zero_answer, drained) =
              flush_loop_returns true sleeps
                (sleep.others (on_streams (wake_all_streams MAX_STREAMS sort w) s)) h.2
                (omega (arith, fewer, le)) in
            (e, rw (some_left, h.1, never_late started) r, zero_answer, drained)
      ]

  -- While the streams make progress between two looks and the timeout is not reached, `flush` returns
  -- after as many sleeps as there are pending events at most, with the answer 0 and none pending.
  pub flush_returns :
      (sleeps : List (Sleep (Channel C w))) (s : Channel C w)
      → Drains sleeps
      → pending_items_counter s ≤ length sleeps
      → (e : Ended ℕ (Channel C w)) × (flush MAX_STREAMS sort timed pending_items_counter sleeps s
          ≡ some e)
        × (e.answer ≡ 0)
        × (pending_items_counter e.state ≡ 0)
  unfolding flush
  flush_returns sleeps s h le = flush_loop_returns false sleeps s h le

  abbrev pub running_count : Channel C w → ℕ
  running_count s = running_streams_count MAX_STREAMS sort w s.streams_manager

  abbrev pub keeps_running : ℕ → Channel C w → Bool
  keeps_running i s = keep_stream_running MAX_STREAMS sort w i s.streams_manager

  -- While cancelled streams end, each sleep leaves fewer of them, and nobody lets one run again.
  abbrev pub Leaves : List (Sleep (Channel C w)) → Type ℓ
  Leaves [] = Unit
  Leaves (sleep ∷ sleeps) =
      ((s : Channel C w) → 0 < running_count s → running_count (sleep.others s) < running_count s)
      × ((s : Channel C w) (i : ℕ)
          → keeps_running i s ≡ false
          → keeps_running i (sleep.others s) ≡ false)
      × (sleep.late ≡ false)
      × Leaves sleeps

  AreTold : List ℕ → Channel C w → Type 0
  AreTold live s = (i : ℕ) → 0 < count i live → keeps_running i s ≡ false

  end_all_loop_returns :
      (live : List ℕ) (sleeps : List (Sleep (Channel C w))) (s : Channel C w)
      → Leaves sleeps
      → AreTold live s
      → running_count s ≤ length sleeps
      → (e : Ended ℕ (Channel C w)) × (end_all_loop MAX_STREAMS sort timed pending_items_counter
            false sleeps s
          ≡ some e)
        × (e.answer ≡ 0)
        × (running_count e.state ≡ 0)
        × AreTold live e.state
  unfolding end_all_loop running
  end_all_loop_returns live [] s h told le =
      let e : running_count s ≡ 0 = omega (arith, le) in
      (record { answer = running_count s; sleeps = []; state = s }, rw e refl, e, e, told)
  end_all_loop_returns live (sleep ∷ sleeps) s h told le =
      elim (Bool-cases (ltb 0 (running_count s))) [
        | inr over ↦
            let e : running_count s ≡ 0 = ground arith in
            (
              record { answer = running_count s; sleeps = sleep ∷ sleeps; state = s },
              rw over refl,
              e,
              e,
              told,
            )
        | inl more ↦
            let fewer = h.0 s (ground arith) in
            let (e, r, zero_answer, left, told') =
              end_all_loop_returns live sleeps (sleep.others s) h.3
                (unfold AreTold in λ i has. h.1 s i (told i has)) (omega (arith, fewer, le)) in
            (e, rw (more, h.2, untimed) r, zero_answer, left, told')
      ]
    where
      untimed : (timed && false) ≡ false
      untimed = ground arith

  module _ (sz : IsRingSize MAX_STREAMS) where
    -- With no event pending, `end_all_streams` tells every living stream to end. While each sleep leaves
    -- fewer streams, nobody lets one run again and the timeout is not reached, it returns 0 after as many sleeps as there were streams
    -- at most, when none is left; then each of the streams is still told to end.
    pub end_all_streams_returns :
        {live : List ℕ} (sleeps : List (Sleep (Channel C w))) (s : Channel C w)
        → IsManaged MAX_STREAMS sz sort w live s.streams_manager
        → pending_items_counter s ≡ 0
        → Leaves sleeps
        → running_count (on_streams (cancel_all_streams MAX_STREAMS sort w) s) ≤ length sleeps
        → (e : Ended ℕ (Channel C w)) × (end_all_streams MAX_STREAMS sort timed
              pending_items_counter sleeps false s
            ≡ some e)
          × (e.answer ≡ 0)
          × (running_count e.state ≡ 0)
          × ((i : ℕ)
              → keeps_running i e.state
                ≡ (if count i live == 0 then keeps_running i e.state else false))
    unfolding end_all_streams flush flush_loop AreTold
    end_all_streams_returns {live} sleeps s v none_pending h le =
        let (e, r, zero_answer, left, told) =
          end_all_loop_returns live sleeps (on_streams (cancel_all_streams MAX_STREAMS sort w) s) h
            cancelled le in
        (
          e,
          rw (end_all_streams, at_once sleeps) r,
          zero_answer,
          left,
          λ i. still i e.state (told i),
        )
      where
        cancelled :
            (i : ℕ)
            → 0 < count i live
            → keeps_running i (on_streams (cancel_all_streams MAX_STREAMS sort w) s) ≡ false
        cancelled i has =
            let lives : (count i live == 0) ≡ false = ground (arith, has) in
            cancel_all_streams_ends MAX_STREAMS sort w sz s.streams_manager v i ∙ rw lives refl

        still :
            (i : ℕ) (state : Channel C w)
            → (0 < count i live → keeps_running i state ≡ false)
            → keeps_running i state ≡ (if count i live == 0 then keeps_running i state else false)
        still i state told = elim (Bool-cases (count i live == 0)) [
          | inl e ↦ rw e refl
          | inr e ↦ rw e (told (ground (arith, e)))
        ]

        at_once :
            (sleeps : List (Sleep (Channel C w)))
            → flush MAX_STREAMS sort timed pending_items_counter sleeps s
              ≡ some (record { answer = 0; sleeps = sleeps; state = s })
        at_once [] = rw (flush, flush_loop, none_pending) refl
        at_once (sleep ∷ sleeps) = rw (flush, flush_loop, none_pending) refl
