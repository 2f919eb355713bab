-- ===== src/Streams/New.antt =====
-- StreamsManagerBase.new: every id vacant, no stream used.
use mathlib.Core.List.{append-nil, append_assoc}
use reactive_mutiny.Common.{
  ℕ, suc, zero, ◌+◌, ◌-◌, ◌%◌, ◌^◌, ◌<◌, ◌≤◌, ◌≡◌, refl, sym, ap, ◌∙◌, true, false, none, some,
  List, [], ◌∷◌, ◌++◌, arith, length, length-append, length-replicate, replicate, count, IsRingSize,
  ring_size_bounds, ltb, lt→ltb, up_from, count-up_from, length-up_from, ◌>>=◌,
}
use reactive_mutiny.Fifo
use reactive_mutiny.FullSync.Move
use reactive_mutiny.FullSync.Move.{FullSyncMove}
use reactive_mutiny.FullSync.Move.Refine.{IsReady, contents, publish_refines}
use reactive_mutiny.FullSync.Move.Container.{new-IsReady}
use reactive_mutiny.Streams.{u32_max, Wakers, Sort, StreamsManager, publish_ids, new}
use reactive_mutiny.Streams.Listing.{missing}
use reactive_mutiny.Streams.Lifecycle.{IsManaged}

missing_none :
    (vs : List ℕ) (n i : ℕ)
    → ((j : ℕ) → i ≤ j → j < i + n → 0 < count j vs)
    → missing vs (up_from n i) ≡ []
missing_none vs zero i h = refl
missing_none vs (suc n) i h = ground (
  arith,
  h i (omega arith) (omega arith),
  missing_none vs n (i + 1) (λ j lo hi. h j (omega arith) (omega arith)),
)

module _ (MAX_STREAMS : ℕ) (sz : IsRingSize MAX_STREAMS) (sort : Sort) (w : Wakers) where
  publish_ids-contents :
      (ids : List ℕ) (vacant : FullSyncMove ℕ)
      → IsReady MAX_STREAMS vacant
      → length (contents 0 MAX_STREAMS vacant) + length ids ≤ MAX_STREAMS
      → (vacant' : FullSyncMove ℕ) × (publish_ids MAX_STREAMS sort w ids vacant
          ≡ some (tt, vacant'))
        × (contents 0 MAX_STREAMS vacant' ≡ contents 0 MAX_STREAMS vacant ++ ids)
        × IsReady MAX_STREAMS vacant'
  unfolding publish_ids Fifo.publish
  publish_ids-contents [] vacant v le =
      (vacant, refl, sym (append-nil (contents 0 MAX_STREAMS vacant)), v)
  publish_ids-contents (x ∷ ids) vacant v le =
      let (v1, e1, left1, ready1) = publish_refines 0 MAX_STREAMS sz x vacant v in
      let (v2, e2, left2, ready2) = publish_ids-contents ids v1 ready1 (rw (left1, room) fewer) in
      (
        v2,
        rw (e1, ◌>>=◌) e2,
        left2 ∙ rw (left1, room) (append_assoc (contents 0 MAX_STREAMS vacant) (x ∷ []) ids),
        ready2,
      )
    where
      room : ltb (length (contents 0 MAX_STREAMS vacant)) MAX_STREAMS ≡ true
      room = lt→ltb _ _ (omega arith)

      fewer : length (contents 0 MAX_STREAMS vacant ++ (x ∷ [])) + length ids ≤ MAX_STREAMS
      fewer = omega (arith, length-append (contents 0 MAX_STREAMS vacant) (x ∷ []))

  -- A new manager has every id vacant and no living stream.
  pub new-IsManaged :
      (s : StreamsManager w) × (new MAX_STREAMS sort w ≡ some s)
      × IsManaged MAX_STREAMS sz sort w [] s
      × (contents 0 MAX_STREAMS s.vacant_streams ≡ up_from MAX_STREAMS 0)
  new-IsManaged =
      let (vacant, e, left, ready) =
        publish_ids-contents (up_from (MAX_STREAMS % 2 ^ 32) 0) (Move.new 0 MAX_STREAMS)
          (new-IsReady {A = ℕ} 0 MAX_STREAMS).0 enough in
      go vacant e (left ∙ (rw ((new-IsReady {A = ℕ} 0 MAX_STREAMS).1, whole))) ready
    where
      whole : MAX_STREAMS % 2 ^ 32 ≡ MAX_STREAMS
      whole = omega (arith, ring_size_bounds sz)

      enough :
          length (contents {A = ℕ} 0 MAX_STREAMS (Move.new 0 MAX_STREAMS))
            + length (up_from (MAX_STREAMS % 2 ^ 32) 0)
          ≤ MAX_STREAMS
      enough =
          rw ((new-IsReady {A = ℕ} 0 MAX_STREAMS).1, whole)
            (omega (arith, length-up_from MAX_STREAMS 0))

      go :
          (vacant : FullSyncMove ℕ)
          → publish_ids MAX_STREAMS sort w
              (up_from (MAX_STREAMS % 2 ^ 32) 0)
              (Move.new 0 MAX_STREAMS)
            ≡ some (tt, vacant)
          → contents 0 MAX_STREAMS vacant ≡ up_from MAX_STREAMS 0
          → IsReady MAX_STREAMS vacant
          → (s : StreamsManager w) × (new MAX_STREAMS sort w ≡ some s)
            × IsManaged MAX_STREAMS sz sort w [] s
            × (contents 0 MAX_STREAMS s.vacant_streams ≡ up_from MAX_STREAMS 0)
      go vacant e left ready = (
        record {
          vacant_streams = vacant;
          used_streams = replicate MAX_STREAMS u32_max;
          used_streams_count = 0;
          created_streams_count = 0;
          finished_streams_count = 0;
          wakers = replicate MAX_STREAMS none;
          keep_streams_running = replicate MAX_STREAMS false;
          wakes = [];
        },
        unfold new in rw (e, new),
        record {
          ready = ready;
          shared = λ i. rw left (ground (arith, count-up_from i MAX_STREAMS 0));
          listed = sym (
              rw (left, none_missing)
                (ap (λ n. replicate n u32_max)
                  (let e : MAX_STREAMS ≡ MAX_STREAMS - 0 = omega arith in sym e)));
          counted = refl;
          balanced = refl;
          finished_word = omega arith;
          used_shape = length-replicate MAX_STREAMS u32_max;
          wakers_shape = length-replicate MAX_STREAMS none;
          flags_shape = length-replicate MAX_STREAMS false;
        },
        left,
      )
        where
          none_missing : missing (up_from MAX_STREAMS 0) (up_from MAX_STREAMS 0) ≡ []
          none_missing =
              missing_none (up_from MAX_STREAMS 0) MAX_STREAMS 0
                (λ j lo hi. ground (arith, count-up_from j MAX_STREAMS 0))
