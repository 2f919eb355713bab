-- ===== src/Streams/Wake.antt =====
-- StreamsManagerBase: who is woken, and which waker a stream registers.
use mathlib.Core.List.{append_assoc, append-nil}
use reactive_mutiny.Common.{
  ℕ, ◌%◌, ◌^◌, ◌<◌, ◌≡◌, refl, sym, ap, ◌∙◌, true, Option, none, some, List, [], ◌∷◌, ◌++◌, arith,
  length, get_or, set, get_or-set_self, count, IsRingSize, ring_size_bounds, up_from, count-up_from,
  ◌==◌, Bool-cases, Option-cases, inl, inr,
}
use reactive_mutiny.Streams.{
  u32_max, Wakers, Sort, StreamsManager, wake_stream, wake_streams, wake_all_streams, set_waker,
  register_stream_waker,
}

module _ (MAX_STREAMS : ℕ) (sort : Sort) (w : Wakers) where
  -- The wakers that are registered for the ids, in the ids' order.
  unfoldable pub registered : List ℕ → List (Option w.Waker) → List w.Waker
  registered [] wakers = []
  registered (stream_id ∷ ids) wakers = elim (get_or wakers stream_id none) [
    | none ↦ registered ids wakers
    | some waker ↦ waker ∷ registered ids wakers
  ]

  wake_streams-registered :
      (ids : List ℕ) (s : StreamsManager w)
      → count u32_max ids ≡ 0
      → wake_streams MAX_STREAMS sort w ids s
        ≡ record s { wakes = s.wakes ++ registered ids s.wakers }
  unfolding wake_streams wake_stream registered
  wake_streams-registered [] s none_max =
      ap (λ l. record s { wakes = l }) (sym (append-nil s.wakes))
  wake_streams-registered (x ∷ ids) s none_max = elim (Bool-cases (x == u32_max)) [
    | inl last ↦ absurd (ground arith)
    | inr more ↦ elim (Option-cases (get_or s.wakers x none)) [
      | inl e ↦ rw (more, e, wake_stream, registered) (wake_streams-registered ids s (ground arith))
      | inr (a, e) ↦
          rw (more, e, wake_stream, registered)
            (wake_streams-registered ids (record s { wakes = s.wakes ++ (a ∷ []) }) (ground arith)
              ∙ ap (λ l. record s { wakes = l })
                  (append_assoc s.wakes (a ∷ []) (registered ids s.wakers)))
    ]
  ]

  -- `wake_all_streams` wakes every registered waker, in the order of the ids, and changes nothing else.
  pub wake_all_streams-registered :
      (s : StreamsManager w)
      → IsRingSize MAX_STREAMS
      → wake_all_streams MAX_STREAMS sort w s
        ≡ record s { wakes = s.wakes ++ registered (up_from MAX_STREAMS 0) s.wakers }
  unfolding wake_all_streams
  wake_all_streams-registered s sz =
      ap (λ n. wake_streams MAX_STREAMS sort w (up_from n 0) s) whole
      ∙ wake_streams-registered (up_from MAX_STREAMS 0) s
          (ground (arith, ring_size_bounds sz, count-up_from u32_max MAX_STREAMS 0))
    where
      whole : MAX_STREAMS % 2 ^ 32 ≡ MAX_STREAMS
      whole = omega (arith, ring_size_bounds sz)

  -- How a registration ends: a waker that wakes the same task stays registered and nobody is woken,
  -- or the new waker is registered and woken at once.
  pub data Registered (stream_id : ℕ) (waker : w.Waker) (s s' : StreamsManager w) : Type 0 where
    kept :
        (old : w.Waker)
        → get_or s'.wakers stream_id none ≡ some old
        → w.will_wake old waker ≡ true
        → s' ≡ s
        → Registered stream_id waker s s'
    renewed :
        get_or s'.wakers stream_id none ≡ some waker
        → s'.wakers ≡ set s.wakers stream_id (some waker)
        → s'.wakes ≡ s.wakes ++ (waker ∷ [])
        → Registered stream_id waker s s'

  -- After `register_stream_waker`, the stream has a waker that wakes the task; a waker that replaces
  -- another one, or none, has been woken.
  pub register_stream_waker-Registered :
      (stream_id : ℕ) (waker : w.Waker) (s : StreamsManager w)
      → stream_id < length s.wakers
      → Registered stream_id waker s (register_stream_waker MAX_STREAMS sort w stream_id waker s)
  unfolding register_stream_waker set_waker
  register_stream_waker-Registered x waker s lt = elim (Option-cases (get_or s.wakers x none)) [
    | inl e ↦
        rw (e, register_stream_waker)
          (renewed (get_or-set_self s.wakers x (some waker) none lt) refl refl)
    | inr (a, e) ↦ elim (Bool-cases (w.will_wake a waker)) [
      | inl same ↦ rw (e, register_stream_waker) (rw same (kept a e same refl))
      | inr other ↦
          rw (e, register_stream_waker)
            (rw other (renewed (get_or-set_self s.wakers x (some waker) none lt) refl refl))
    ]
  ]
