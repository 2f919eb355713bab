-- ===== src/Streams/Living.antt =====
-- StreamsManagerBase: the ids of the living streams, as `used_streams` lists them.
use reactive_mutiny.Common.{
  ℕ, ◌+◌, ◌-◌, ◌<◌, ◌≤◌, ◌≡◌, ◌∙◌, List, ◌++◌, arith, length, length-append, count, count-append,
  replicate, IsRingSize, ring_size_bounds, up_from, count-up_from, shared_length, length_of_counts,
  ltb, if◌then◌else◌,
}
use reactive_mutiny.FullSync.Move.Refine.{contents}
use reactive_mutiny.Streams.{u32_max, Wakers, Sort, StreamsManager}
use reactive_mutiny.Streams.Listing.{missing}
use reactive_mutiny.Streams.Cancel.{count-missing}
use reactive_mutiny.Streams.Lifecycle.{IsManaged}

module _ (MAX_STREAMS : ℕ) (sz : IsRingSize MAX_STREAMS) (sort : Sort) (w : Wakers) where
  abbrev vacant : StreamsManager w → List ℕ
  vacant s = contents 0 MAX_STREAMS s.vacant_streams

  -- In ascending order.
  abbrev pub living : StreamsManager w → List ℕ
  living s = missing (contents 0 MAX_STREAMS s.vacant_streams) (up_from MAX_STREAMS 0)

  -- The list of used ids starts with them, and goes on with the sentinel.
  pub used-living :
      {live : List ℕ} (s : StreamsManager w)
      → IsManaged MAX_STREAMS sz sort w live s
      → s.used_streams ≡ living s ++ replicate (MAX_STREAMS - length (living s)) u32_max
  used-living s v = v.listed

  pub count-living :
      {live : List ℕ} (i : ℕ) (s : StreamsManager w)
      → IsManaged MAX_STREAMS sz sort w live s
      → count i (living s) ≡ count i live
  count-living i s v = ground (
    arith,
    count-missing i (vacant s) (up_from MAX_STREAMS 0),
    count-up_from i MAX_STREAMS 0,
    v.shared i,
  )

  pub living_below :
      {live : List ℕ} (i : ℕ) (s : StreamsManager w)
      → IsManaged MAX_STREAMS sz sort w live s
      → 0 < count i (living s)
      → i < MAX_STREAMS
  living_below i s v has = ground (arith, count-living i s v, v.shared i)

  pub living_once :
      {live : List ℕ} (i : ℕ) (s : StreamsManager w)
      → IsManaged MAX_STREAMS sz sort w live s
      → count i (living s) ≤ 1
  living_once i s v = ground (arith, count-living i s v, v.shared i)

  pub living_no_max :
      {live : List ℕ} (s : StreamsManager w)
      → IsManaged MAX_STREAMS sz sort w live s
      → count u32_max (living s) ≡ 0
  living_no_max s v =
      ground (arith, count-living u32_max s v, v.shared u32_max, ring_size_bounds sz)

  -- `running_streams_count` counts them.
  pub length-living :
      {live : List ℕ} (s : StreamsManager w)
      → IsManaged MAX_STREAMS sz sort w live s
      → length (living s) ≡ s.used_streams_count
  length-living {live} s v = omega (
    arith,
    v.counted,
    shared_length MAX_STREAMS (vacant s) live v.shared,
    length-append (vacant s) (living s),
    length_of_counts MAX_STREAMS (vacant s ++ living s) (λ i.
        count-append i (vacant s) (living s)
        ∙ (let e : count i (vacant s) + count i (living s) ≡ (if ltb i MAX_STREAMS then 1 else 0) =
              omega (arith, count-living i s v, v.shared i) in
            e)),
  )
