-- ===== src/Streams/Cancel.antt =====
-- StreamsManagerBase: which streams run, and the cancellation of all.
use reactive_mutiny.Common.{
  ℕ, suc, zero, ◌+◌, ◌-◌, ◌%◌, ◌^◌, ◌<◌, ◌≡◌, refl, ap, ◌∙◌, Bool, true, false, none, some, List,
  [], ◌∷◌, ◌++◌, arith, length, replicate, get_or, set, count, length-remove_of_count, IsRingSize,
  ring_size_bounds, up_from, count-up_from, ◌==◌, Option-cases, inl, inr, if◌then◌else◌,
}
use reactive_mutiny.FullSync.Move.Refine.{contents}
use reactive_mutiny.Streams.{
  u32_max, Wakers, Sort, StreamsManager, wake_stream, keep_stream_running, is_any_stream_running,
  any_running, cancel_stream, cancel_streams, cancel_all_streams, report_stream_dropped,
  running_streams_count,
}
use reactive_mutiny.Streams.Listing.{missing}
use reactive_mutiny.Streams.Drop.{report_stream_dropped-IsManaged}
use reactive_mutiny.Streams.Lifecycle.{IsManaged}

get_or-set-false :
    (flags : List Bool) (x i : ℕ)
    → get_or (set flags x false) i false ≡ (if i == x then false else get_or flags i false)
get_or-set-false [] x i = ground arith
get_or-set-false (b ∷ flags) zero zero = refl
get_or-set-false (b ∷ flags) zero (suc i) = ground arith
get_or-set-false (b ∷ flags) (suc x) zero = ground arith
get_or-set-false (b ∷ flags) (suc x) (suc i) = ground (arith, get_or-set-false flags x i)

pub count-missing :
    (i : ℕ) (vs is : List ℕ) → count i (missing vs is) ≡ (if count i vs == 0 then count i is else 0)
count-missing i vs [] = ground arith
count-missing i vs (x ∷ is) = ground (arith, count-missing i vs is)

module _ (MAX_STREAMS : ℕ) (sort : Sort) (w : Wakers) where
  flags-wake_stream :
      (x : ℕ) (s : StreamsManager w)
      → (wake_stream MAX_STREAMS sort w x s).keep_streams_running ≡ s.keep_streams_running
  flags-wake_stream x s = elim (Option-cases (get_or s.wakers x none)) [
    | inl e ↦ unfold wake_stream in rw (e, wake_stream)
    | inr (a, e) ↦ unfold wake_stream in rw (e, wake_stream)
  ]

  flags-cancel_stream :
      (x : ℕ) (s : StreamsManager w)
      → (cancel_stream MAX_STREAMS sort w x s).keep_streams_running
        ≡ set s.keep_streams_running x false
  flags-cancel_stream x s =
      unfold cancel_stream in
      flags-wake_stream x (record s { keep_streams_running = set s.keep_streams_running x false })

  pub keep-cancel_stream :
      (i x : ℕ) (s : StreamsManager w)
      → keep_stream_running MAX_STREAMS sort w i (cancel_stream MAX_STREAMS sort w x s)
        ≡ (if i == x then false else keep_stream_running MAX_STREAMS sort w i s)
  unfolding keep_stream_running
  keep-cancel_stream i x s =
      ap (λ l. get_or l i false) (flags-cancel_stream x s)
      ∙ get_or-set-false s.keep_streams_running x i

  keep-cancel_streams :
      (i n : ℕ) (ids : List ℕ) (s : StreamsManager w)
      → count u32_max ids ≡ 0
      → keep_stream_running MAX_STREAMS sort w i
          (cancel_streams MAX_STREAMS sort w (ids ++ replicate n u32_max) s)
        ≡ (if count i ids == 0 then keep_stream_running MAX_STREAMS sort w i s else false)
  unfolding cancel_streams
  keep-cancel_streams i zero [] s h = refl
  keep-cancel_streams i (suc n) [] s h = refl
  keep-cancel_streams i n (x ∷ ids) s h = ground (
    arith,
    keep-cancel_streams i n ids (cancel_stream MAX_STREAMS sort w x s),
    keep-cancel_stream i x s,
  )

  same_flag :
      (i : ℕ) (s s' : StreamsManager w)
      → s'.keep_streams_running ≡ s.keep_streams_running
      → keep_stream_running MAX_STREAMS sort w i s' ≡ keep_stream_running MAX_STREAMS sort w i s
  unfolding keep_stream_running
  same_flag i s s' e = ap (λ l. get_or l i false) e

  any_running_of_one :
      (i : ℕ) (ids : List ℕ) (s : StreamsManager w)
      → 0 < count i ids
      → count u32_max ids ≡ 0
      → keep_stream_running MAX_STREAMS sort w i s ≡ true
      → any_running MAX_STREAMS sort w ids s ≡ true
  unfolding any_running
  any_running_of_one i [] s has none_max runs = absurd (omega arith)
  any_running_of_one i (x ∷ ids) s has none_max runs = ground (arith, any_running_of_one i ids s)

  module _ (sz : IsRingSize MAX_STREAMS) where
    -- `cancel_all_streams` tells every living stream to end, and changes no flag of another id.
    pub cancel_all_streams_ends :
        {live : List ℕ} (s : StreamsManager w)
        → IsManaged MAX_STREAMS sz sort w live s
        → (i : ℕ)
        → keep_stream_running MAX_STREAMS sort w i (cancel_all_streams MAX_STREAMS sort w s)
          ≡ (if count i live == 0 then keep_stream_running MAX_STREAMS sort w i s else false)
    cancel_all_streams_ends {live} s v i =
        ap (λ l. keep_stream_running MAX_STREAMS sort w i l) all_used
        ∙ keep-cancel_streams i (MAX_STREAMS - length ids) ids s no_max
        ∙ ground (
          arith,
          count-missing i free (up_from MAX_STREAMS 0),
          count-up_from i MAX_STREAMS 0,
          v.shared i,
        )
      where
        free : List ℕ
        free = contents 0 MAX_STREAMS s.vacant_streams

        ids : List ℕ
        ids = missing free (up_from MAX_STREAMS 0)

        all_used :
            cancel_all_streams MAX_STREAMS sort w s
            ≡ cancel_streams MAX_STREAMS sort w
                (ids ++ replicate (MAX_STREAMS - length ids) u32_max)
                s
        all_used =
            unfold cancel_all_streams in ap (λ l. cancel_streams MAX_STREAMS sort w l s) v.listed

        no_max : count u32_max ids ≡ 0
        no_max = ground (
          arith,
          count-missing u32_max free (up_from MAX_STREAMS 0),
          count-up_from u32_max MAX_STREAMS 0,
          ring_size_bounds sz,
        )

    -- Dropping a stream that was not told to end leaves its flag up: `is_any_stream_running` goes on
    -- answering `true`, whatever streams are left.
    pub dropped_still_running :
        {live : List ℕ} (stream_id : ℕ) (s : StreamsManager w)
        → IsManaged MAX_STREAMS sz sort w live s
        → 0 < count stream_id live
        → keep_stream_running MAX_STREAMS sort w stream_id s ≡ true
        → (s' : StreamsManager w) × (report_stream_dropped MAX_STREAMS sort w stream_id s
            ≡ some (tt, s'))
          × (is_any_stream_running MAX_STREAMS sort w s' ≡ true)
          × (running_streams_count MAX_STREAMS sort w s' + 1 ≡ length live)
    dropped_still_running {live} x s v has runs =
        let (s', e, v', gone, flags) =
          report_stream_dropped-IsManaged MAX_STREAMS sz sort w x s v has in
        (
          s',
          e,
          (unfold is_any_stream_running in
              any_running_of_one x (up_from (MAX_STREAMS % 2 ^ 32) 0) s' listed no_max
                (same_flag x s s' flags ∙ runs)),
          (unfold running_streams_count in
              omega (arith, v'.counted, length-remove_of_count x live has)),
        )
      where
        listed : 0 < count x (up_from (MAX_STREAMS % 2 ^ 32) 0)
        listed =
            ground
              (arith, ring_size_bounds sz, v.shared x, count-up_from x (MAX_STREAMS % 2 ^ 32) 0)

        no_max : count u32_max (up_from (MAX_STREAMS % 2 ^ 32) 0) ≡ 0
        no_max = ground (arith, ring_size_bounds sz, count-up_from u32_max (MAX_STREAMS % 2 ^ 32) 0)
