-- ===== src/Streams/Drop.antt =====
-- StreamsManagerBase: a stream that is dropped.
use reactive_mutiny.Common.{
  ℕ, ◌+◌, ◌^◌, ◌<◌, ◌≡◌, refl, ap, ◌∙◌, true, none, some, List, [], ◌∷◌, ◌++◌, arith, length,
  length-append, length-set, get_or, get_or-set_self, set, count, remove, IsShared, take_back,
  shared_length, count-le-length, add_u32, sub_u32, IsRingSize, ring_size_bounds, ltb, lt→ltb,
}
use reactive_mutiny.Fifo
use reactive_mutiny.FullSync.Move
use reactive_mutiny.FullSync.Move.{FullSyncMove}
use reactive_mutiny.FullSync.Move.Refine.{IsReady, contents, publish_refines}
use reactive_mutiny.Streams.{
  Wakers, Sort, StreamsManager, sync_vacant_and_used_streams, report_stream_dropped,
}
use reactive_mutiny.Streams.Sync.{listing, length-listing}
use reactive_mutiny.Streams.Lifecycle.{IsManaged, sync-listed}

module _ (MAX_STREAMS : ℕ) (sz : IsRingSize MAX_STREAMS) (sort : Sort) (w : Wakers) where
  -- The state in which `report_stream_dropped` rebuilds the list.
  abbrev given_back : ℕ → FullSyncMove ℕ → StreamsManager w → StreamsManager w
  given_back stream_id vacant s = record s {
    wakers = set s.wakers stream_id none;
    finished_streams_count = add_u32 s.finished_streams_count 1;
    used_streams_count = sub_u32 s.used_streams_count 1;
    vacant_streams = vacant;
  }

  -- Dropping a living stream makes its id vacant again, forgets its waker and leaves the flags alone.
  pub report_stream_dropped-IsManaged :
      {live : List ℕ} (stream_id : ℕ) (s : StreamsManager w)
      → IsManaged MAX_STREAMS sz sort w live s
      → 0 < count stream_id live
      → (s' : StreamsManager w) × (report_stream_dropped MAX_STREAMS sort w stream_id s
          ≡ some (tt, s'))
        × IsManaged MAX_STREAMS sz sort w (remove stream_id live) s'
        × (get_or s'.wakers stream_id none ≡ none)
        × (s'.keep_streams_running ≡ s.keep_streams_running)
  unfolding Fifo.publish
  report_stream_dropped-IsManaged {live} x s v has =
      let (vacant, e, left, ready) = publish_refines 0 MAX_STREAMS sz x s.vacant_streams v.ready in
      go vacant e (rw room at left) ready
    where
      free : List ℕ
      free = contents 0 MAX_STREAMS s.vacant_streams

      parts : length free + length live ≡ MAX_STREAMS
      parts = shared_length MAX_STREAMS free live v.shared

      room : ltb (length free) MAX_STREAMS ≡ true
      room = lt→ltb _ _ (omega (arith, parts, count-le-length x live))

      known : x < MAX_STREAMS
      known = ground (arith, v.shared x)

      go :
          (vacant : FullSyncMove ℕ)
          → Move.publish_movable 0 MAX_STREAMS x s.vacant_streams
            ≡ some ((Fifo.publish MAX_STREAMS x free).0, vacant)
          → contents 0 MAX_STREAMS vacant ≡ free ++ (x ∷ [])
          → IsReady MAX_STREAMS vacant
          → (s' : StreamsManager w) × (report_stream_dropped MAX_STREAMS sort w x s ≡ some (tt, s'))
            × IsManaged MAX_STREAMS sz sort w (remove x live) s'
            × (get_or s'.wakers x none ≡ none)
            × (s'.keep_streams_running ≡ s.keep_streams_running)
      go vacant e left ready = (
        record (given_back x vacant s) {
          used_streams = listing MAX_STREAMS sort (contents 0 MAX_STREAMS vacant);
        },
        unfold report_stream_dropped in
            rw (e, report_stream_dropped) (ap (λ t. some (tt, t)) synced),
        record {
          ready = ready;
          shared = now_shared;
          listed = refl;
          counted = omega (arith, one_less, v.counted, parts, few);
          balanced = omega (arith, one_less, v.balanced, parts, few);
          finished_word = omega arith;
          used_shape = length-listing MAX_STREAMS sort (contents 0 MAX_STREAMS vacant);
          wakers_shape = length-set s.wakers x none ∙ v.wakers_shape;
          flags_shape = v.flags_shape;
        },
        get_or-set_self s.wakers x none none (rw v.wakers_shape known),
        refl,
      )
        where
          now_shared : IsShared MAX_STREAMS (contents 0 MAX_STREAMS vacant) (remove x live)
          now_shared i = rw left (take_back MAX_STREAMS x free live v.shared has i)

          few : MAX_STREAMS < 2 ^ 31
          few = omega (arith, ring_size_bounds sz)

          one_less : length (remove x live) + 1 ≡ length live
          one_less = omega (
            arith,
            parts,
            shared_length MAX_STREAMS (contents 0 MAX_STREAMS vacant) (remove x live) now_shared,
            ap length left,
            length-append free (x ∷ []),
          )

          synced :
              sync_vacant_and_used_streams MAX_STREAMS sort w (given_back x vacant s)
              ≡ record (given_back x vacant s) {
                used_streams = listing MAX_STREAMS sort (contents 0 MAX_STREAMS vacant);
              }
          synced =
              sync-listed MAX_STREAMS sz sort w (remove x live) (given_back x vacant s) ready
                now_shared v.used_shape
