-- ===== src/Multi/Sharing/Counting.antt =====
-- The ogre_arc channels: a slot that is sent is counted once for every living stream, and each living
-- stream gets one handle to it.
use reactive_mutiny.Common.{
  ℕ, zero, ◌+◌, ◌-◌, ◌^◌, ◌<◌, ◌≡◌, refl, sym, ap, ap₂, ◌∙◌, Bool, true, false, Bool-cases,
  Option-cases, inl, inr, some, List, [], ◌∷◌, ◌++◌, arith, length, get_or, count, replicate, ltb,
  ◌==◌, if◌then◌else◌, ◌>>=◌, IsRingSize,
}
use reactive_mutiny.Container.{MoveContainer}
use reactive_mutiny.Alloc.Arc.Counting.{IsCounted, increment_references-IsCounted}
use reactive_mutiny.Streams.{u32_max, Wakers, Sort, running_streams_count}
use reactive_mutiny.Streams.Living.{
  living, used-living, count-living, length-living, living_below, living_once, living_no_max,
}
use reactive_mutiny.Multi.Fanout.{Fanout, try_publish, publish_to, publish_each}
use reactive_mutiny.Multi.Fanout.Rounds.{AreReady, waiting, announced, publish_each_room}
use reactive_mutiny.Multi.Fanout.Delivery.{IsOpen, listed}
use reactive_mutiny.Multi.Sharing.{
  Shared, dispatch_to, dispatch, on_arcs, on_dispatchers, send_derived,
}

module _ {D : Type 0} (c q : MoveContainer ℕ) (pool_size : ℕ) (junk : D) (needs_drop : Bool)
    (wake_up_to MAX_STREAMS : ℕ) (sort : Sort) (w : Wakers) where
  abbrev Dispatchers : Type 0
  Dispatchers = Fanout q wake_up_to MAX_STREAMS sort w

  dispatch_to-publish_to :
      (i arc : ℕ) (f : Dispatchers)
      → dispatch_to c q pool_size junk needs_drop wake_up_to MAX_STREAMS sort w i arc f
        ≡ publish_to q wake_up_to MAX_STREAMS sort w [] i arc f
  unfolding dispatch_to publish_to try_publish
  dispatch_to-publish_to i arc f = elim (Bool-cases (ltb i (length f.channel))) [
    | inr out ↦ rw (out, ◌>>=◌, try_publish) refl
    | inl inside ↦ elim (Option-cases (q.publish_movable arc (get_or f.channel i q.new))) [
      | inl e ↦ rw (inside, e, ◌>>=◌, try_publish) refl
      | inr (a, e) ↦ elim (Option-cases a.0.0) [
        | inl full ↦ rw (inside, e, ◌>>=◌, try_publish) (rw full refl)
        | inr (n, room) ↦ rw (inside, e, ◌>>=◌, try_publish) (rw room refl)
      ]
    ]
  ]

  dispatch-publish_each :
      (ids rest : List ℕ) (arc : ℕ) (f : Dispatchers)
      → count u32_max ids ≡ 0
      → dispatch c q pool_size junk needs_drop wake_up_to MAX_STREAMS sort w
          (length ids)
          (ids ++ rest)
          arc
          f
        ≡ publish_each q wake_up_to MAX_STREAMS sort w
            (λ i. [])
            (ids ++ replicate zero u32_max)
            arc
            f
  unfolding dispatch publish_each
  dispatch-publish_each [] rest arc f no_max = refl
  dispatch-publish_each (x ∷ ids) rest arc f no_max =
      let more : (x == u32_max) ≡ false = ground arith in
      rw (more, ◌>>=◌, dispatch_to-publish_to x arc f)
        (elim (Option-cases (publish_to q wake_up_to MAX_STREAMS sort w [] x arc f)) [
          | inl e ↦ rw (◌>>=◌, e) refl
          | inr (a, e) ↦ rw (◌>>=◌, e) (dispatch-publish_each ids rest arc a.1 (ground arith))
        ])

  module _ (sz : IsRingSize MAX_STREAMS) where
    -- Where every living stream's queue has room: `send_derived` raises the handle's count by the number
    -- of living streams, and puts one handle last in the queue of each of them, and in no other queue.
    -- The streams whose queues were short are woken.
    pub send_derived-IsCounted :
        {live handles outside : List ℕ} (ogre_arc : ℕ)
        (s : Shared c q pool_size junk needs_drop wake_up_to MAX_STREAMS sort w)
        → IsOpen q wake_up_to MAX_STREAMS sort w sz live s.dispatchers
        → IsCounted c pool_size handles outside s.arcs
        → 0 < count ogre_arc handles
        → length handles + length live < 2 ^ 32
        → ((i : ℕ)
            → 0 < count i live
            → length (waiting q wake_up_to MAX_STREAMS sort w i s.dispatchers) < q.max_size)
        → (s' : Shared c q pool_size junk needs_drop wake_up_to MAX_STREAMS sort w) × (send_derived
              c q pool_size junk needs_drop wake_up_to MAX_STREAMS sort w ogre_arc s
            ≡ some (true, s'))
          × IsCounted c pool_size (replicate (length live) ogre_arc ++ handles) outside s'.arcs
          × (s'.arcs.allocator ≡ s.arcs.allocator)
          × AreReady q wake_up_to MAX_STREAMS sort w s'.dispatchers
          × ((i : ℕ)
              → waiting q wake_up_to MAX_STREAMS sort w i s'.dispatchers ≡ (
                  if count i live == 0
                  then waiting q wake_up_to MAX_STREAMS sort w i s.dispatchers
                  else waiting q wake_up_to MAX_STREAMS sort w i s.dispatchers ++ (ogre_arc ∷ [])))
          × (s'.dispatchers.streams_manager
              ≡ announced q wake_up_to MAX_STREAMS sort w
                  (listed q wake_up_to MAX_STREAMS sort w sz s.dispatchers)
                  s.dispatchers
                  s.dispatchers.streams_manager)
    unfolding send_derived on_arcs on_dispatchers running_streams_count
    send_derived-IsCounted {live} arc s v counted has few room =
        let manager = s.dispatchers.streams_manager in
        let ids = living MAX_STREAMS sz sort w manager in
        let (arcs, e, counted', same) =
          increment_references-IsCounted c pool_size junk needs_drop arc (length live) counted has
            few in
        let (f, e', ready, all, told) =
          publish_each_room q wake_up_to MAX_STREAMS sort w (λ i. []) ids zero arc s.dispatchers
            v.queues (living_no_max MAX_STREAMS sz sort w manager v.managed)
            (λ i. living_once MAX_STREAMS sz sort w i manager v.managed)
            (λ i mine. (
              living_below MAX_STREAMS sz sort w i manager v.managed mine,
              room i (rw (count-living MAX_STREAMS sz sort w i manager v.managed) at mine),
            )) in
        let sent : dispatch c q pool_size junk needs_drop wake_up_to MAX_STREAMS sort w
              manager.used_streams_count manager.used_streams arc s.dispatchers
            ≡ some (tt, f) =
          ap₂
            (λ n l.
              dispatch c q pool_size junk needs_drop wake_up_to MAX_STREAMS sort w n l arc
                s.dispatchers)
            (sym (length-living MAX_STREAMS sz sort w manager v.managed))
            (used-living MAX_STREAMS sz sort w manager v.managed)
          ∙ dispatch-publish_each ids (replicate (MAX_STREAMS - length ids) u32_max) arc
              s.dispatchers (living_no_max MAX_STREAMS sz sort w manager v.managed)
          ∙ e' in
        (
          record s { arcs = arcs; dispatchers = f },
          (let e'' = rw (sym v.managed.counted) at e in rw (◌>>=◌, e'', sent) refl),
          counted',
          same,
          ready,
          (λ i.
              all i
              ∙ ap
                  (λ n.
                    if n == 0
                    then waiting q wake_up_to MAX_STREAMS sort w i s.dispatchers
                    else waiting q wake_up_to MAX_STREAMS sort w i s.dispatchers ++ (arc ∷ []))
                  (count-living MAX_STREAMS sz sort w i manager v.managed)),
          told,
        )
