-- ===== src/Multi/Fanout/Delivery.antt =====
-- The arc channels: one send puts the event last in the queue of every living stream, once.
use reactive_mutiny.Common.{
  ℕ, ◌-◌, ◌<◌, ◌≡◌, refl, ap, ◌∙◌, some, List, [], ◌∷◌, ◌++◌, length, count, ◌==◌, if◌then◌else◌,
  ◌>>=◌, IsRingSize,
}
use reactive_mutiny.Container.{MoveContainer}
use reactive_mutiny.Streams.{Wakers, Sort}
use reactive_mutiny.Streams.Lifecycle.{IsManaged}
use reactive_mutiny.Streams.Living.{living, count-living, living_below, living_once, living_no_max}
use reactive_mutiny.Channels.{ok}
use reactive_mutiny.Multi.Fanout.{Fanout, publish_each, send_derived, send}
use reactive_mutiny.Multi.Fanout.Rounds.{AreReady, waiting, announced, publish_each_room}

module _ {ℓ} {A : Type ℓ} (c : MoveContainer A) (wake_up_to MAX_STREAMS : ℕ) (sort : Sort)
    (w : Wakers) where
  module _ (sz : IsRingSize MAX_STREAMS) where
    -- `live` lists the ids of the streams that were created and not dropped.
    pub record IsOpen (live : List ℕ) (s : Fanout c wake_up_to MAX_STREAMS sort w) : Type 0 where
      pub managed : IsManaged MAX_STREAMS sz sort w live s.streams_manager
      pub queues : AreReady c wake_up_to MAX_STREAMS sort w s

    -- The ids of the living streams, in ascending order.
    abbrev pub listed : Fanout c wake_up_to MAX_STREAMS sort w → List ℕ
    listed s = living MAX_STREAMS sz sort w s.streams_manager

    -- Where the queue of every living stream has room, `send` returns at once: the event is last in the
    -- queue of every living stream, once, and no other queue changes. The streams whose queues were
    -- short are woken, in the order of their ids.
    pub send_reaches_all :
        {live : List ℕ}
        (rounds : ℕ
          → List (Fanout c wake_up_to MAX_STREAMS sort w → Fanout c wake_up_to MAX_STREAMS sort w))
        (item : A) (s : Fanout c wake_up_to MAX_STREAMS sort w)
        → IsOpen live s
        → ((i : ℕ)
            → 0 < count i live
            → length (waiting c wake_up_to MAX_STREAMS sort w i s) < c.max_size)
        → (s' : Fanout c wake_up_to MAX_STREAMS sort w) × (send c wake_up_to MAX_STREAMS sort w
              rounds item s
            ≡ some (ok, s'))
          × AreReady c wake_up_to MAX_STREAMS sort w s'
          × ((i : ℕ)
              → waiting c wake_up_to MAX_STREAMS sort w i s' ≡ (
                  if count i live == 0
                  then waiting c wake_up_to MAX_STREAMS sort w i s
                  else waiting c wake_up_to MAX_STREAMS sort w i s ++ (item ∷ [])))
          × (s'.streams_manager
              ≡ announced c wake_up_to MAX_STREAMS sort w (listed s) s s.streams_manager)
    unfolding send send_derived
    send_reaches_all {live} rounds item s v room =
        let (s', e, v', all, told) =
          publish_each_room c wake_up_to MAX_STREAMS sort w rounds (listed s)
            (MAX_STREAMS - length (listed s)) item s v.queues
            (living_no_max MAX_STREAMS sz sort w s.streams_manager v.managed)
            (λ i. living_once MAX_STREAMS sz sort w i s.streams_manager v.managed)
            (λ i has. (
              living_below MAX_STREAMS sz sort w i s.streams_manager v.managed has,
              room i (rw (count-living MAX_STREAMS sz sort w i s.streams_manager v.managed) at has),
            )) in
        (
          s',
          (let e' =
                ap (λ l. publish_each c wake_up_to MAX_STREAMS sort w rounds l item s)
                  v.managed.listed
                ∙ e in
              rw (◌>>=◌, e') refl),
          v',
          (λ i.
              all i
              ∙ ap
                  (λ n.
                    if n == 0
                    then waiting c wake_up_to MAX_STREAMS sort w i s
                    else waiting c wake_up_to MAX_STREAMS sort w i s ++ (item ∷ []))
                  (count-living MAX_STREAMS sz sort w i s.streams_manager v.managed)),
          told,
        )
