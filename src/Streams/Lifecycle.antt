-- ===== src/Streams/Lifecycle.antt =====
-- StreamsManagerBase: which ids belong to living streams, and what creating and dropping do to them.
use reactive_mutiny.Common.{
  ℕ, suc, ◌+◌, ◌^◌, ◌<◌, ◌≡◌, refl, ap, ◌∙◌, true, Option, none, some, List, [], ◌∷◌, arith, length,
  length-set, set, count, IsShared, hand_out, shared_length, shared_once, add_u32, IsRingSize,
  ring_size_bounds,
}
use reactive_mutiny.Fifo
use reactive_mutiny.FullSync.Move
use reactive_mutiny.FullSync.Move.{FullSyncMove}
use reactive_mutiny.FullSync.Move.Refine.{
  IsReady, contents, consume_refines, peek_remaining-contents,
}
use reactive_mutiny.Streams.{
  Wakers, Sort, StreamsManager, sync_used, sync_vacant_and_used_streams, create_stream_id,
}
use reactive_mutiny.Streams.Sync.{listing, length-listing, sync_used-listing}

module _ (MAX_STREAMS : ℕ) (sz : IsRingSize MAX_STREAMS) (sort : Sort) (w : Wakers) where
  -- `live` lists the ids of the streams that were created and not dropped.
  pub record IsManaged (live : List ℕ) (s : StreamsManager w) : Type 0 where
    pub ready : IsReady MAX_STREAMS s.vacant_streams
    pub shared : IsShared MAX_STREAMS (contents 0 MAX_STREAMS s.vacant_streams) live
    pub listed : s.used_streams ≡ listing MAX_STREAMS sort (contents 0 MAX_STREAMS s.vacant_streams)
    pub counted : s.used_streams_count ≡ length live
    pub balanced : s.created_streams_count ≡ add_u32 s.finished_streams_count (length live)
    pub finished_word : s.finished_streams_count < 2 ^ 32
    pub used_shape : length s.used_streams ≡ MAX_STREAMS
    pub wakers_shape : length s.wakers ≡ MAX_STREAMS
    pub flags_shape : length s.keep_streams_running ≡ MAX_STREAMS

  -- Rebuilding the list of used ids makes it fit the vacant ones.
  pub sync-listed :
      (live : List ℕ) (s : StreamsManager w)
      → IsReady MAX_STREAMS s.vacant_streams
      → IsShared MAX_STREAMS (contents 0 MAX_STREAMS s.vacant_streams) live
      → length s.used_streams ≡ MAX_STREAMS
      → sync_vacant_and_used_streams MAX_STREAMS sort w s ≡ record s {
        used_streams = listing MAX_STREAMS sort (contents 0 MAX_STREAMS s.vacant_streams);
      }
  sync-listed live s ready shared shape =
      (unfold sync_vacant_and_used_streams in
        ap (λ l. record s { used_streams = l })
          (ap (λ v. sync_used MAX_STREAMS sort v s.used_streams)
              (peek_remaining-contents 0 MAX_STREAMS sz s.vacant_streams ready)
            ∙ sync_used-listing MAX_STREAMS sort (contents 0 MAX_STREAMS s.vacant_streams)
                s.used_streams shape
                (shared_once MAX_STREAMS (contents 0 MAX_STREAMS s.vacant_streams) live shared)))

  -- How the creation of a stream ends: with an id that no living stream has, or in the panic that
  -- says that every id is taken.
  pub data StreamCreated (live : List ℕ) (s s' : StreamsManager w) : Option ℕ → Type 0 where
    opened :
        (stream_id : ℕ)
        → stream_id < MAX_STREAMS
        → count stream_id live ≡ 0
        → IsManaged (stream_id ∷ live) s'
        → s'.keep_streams_running ≡ set s.keep_streams_running stream_id true
        → StreamCreated live s s' (some stream_id)
    exhausted : length live ≡ MAX_STREAMS → StreamCreated live s s' none

  -- The state in which `create_stream_id` rebuilds the list.
  abbrev taken : ℕ → FullSyncMove ℕ → StreamsManager w → StreamsManager w
  taken stream_id vacant s = record s {
    created_streams_count = add_u32 s.created_streams_count 1;
    used_streams_count = add_u32 s.used_streams_count 1;
    vacant_streams = vacant;
    keep_streams_running = set s.keep_streams_running stream_id true;
  }

  taken-IsManaged :
      {live : List ℕ} {s : StreamsManager w} (x : ℕ) (q : List ℕ) (vacant : FullSyncMove ℕ)
      → IsManaged live s
      → contents 0 MAX_STREAMS s.vacant_streams ≡ x ∷ q
      → contents 0 MAX_STREAMS vacant ≡ q
      → IsReady MAX_STREAMS vacant
      → IsManaged (x ∷ live) (sync_vacant_and_used_streams MAX_STREAMS sort w (taken x vacant s))
  taken-IsManaged {live} {s} x q vacant v eq left ready =
      rw (sync-listed (x ∷ live) (taken x vacant s) ready now_shared v.used_shape) (record {
        ready = ready;
        shared = now_shared;
        listed = refl;
        counted = omega (arith, room, v.counted, ring_size_bounds sz);
        balanced = omega (arith, v.balanced);
        finished_word = v.finished_word;
        used_shape = length-listing MAX_STREAMS sort (contents 0 MAX_STREAMS vacant);
        wakers_shape = v.wakers_shape;
        flags_shape = length-set s.keep_streams_running x true ∙ v.flags_shape;
      })
    where
      all : IsShared MAX_STREAMS (x ∷ q) live
      all i = rw eq at (v.shared i)

      room : suc (length q) + length live ≡ MAX_STREAMS
      room = shared_length MAX_STREAMS (x ∷ q) live all

      now_shared : IsShared MAX_STREAMS (contents 0 MAX_STREAMS vacant) (x ∷ live)
      now_shared i = rw left ((hand_out MAX_STREAMS x q live all).2 i)

  create_step :
      (s : StreamsManager w) (vacant : FullSyncMove ℕ) (o : Option ℕ)
      → Move.consume_movable 0 MAX_STREAMS s.vacant_streams ≡ some (o, vacant)
      → create_stream_id MAX_STREAMS sort w s ≡ (elim o [
        | none ↦ some (
          none,
          record s {
            created_streams_count = add_u32 s.created_streams_count 1;
            used_streams_count = add_u32 s.used_streams_count 1;
            vacant_streams = vacant;
          },
        )
        | some x ↦ some (some x, sync_vacant_and_used_streams MAX_STREAMS sort w (taken x vacant s))
      ])
  create_step s vacant none e = unfold create_stream_id in rw (e, create_stream_id)
  create_step s vacant (some x) e = unfold create_stream_id in rw (e, create_stream_id)

  -- `create_stream_id` hands out an id that no living stream has, lists it as used and lets its stream
  -- run; it panics only when all `MAX_STREAMS` ids belong to living streams.
  pub create_stream_id-StreamCreated :
      {live : List ℕ} (s : StreamsManager w)
      → IsManaged live s
      → (o : Option ℕ) × (s' : StreamsManager w) × (create_stream_id MAX_STREAMS sort w s
          ≡ some (o, s'))
        × StreamCreated live s s' o
  unfolding Fifo.consume
  create_stream_id-StreamCreated {live} s v =
      let (vacant, e, left, ready) = consume_refines 0 MAX_STREAMS sz s.vacant_streams v.ready in
      go (contents 0 MAX_STREAMS s.vacant_streams) refl vacant e left ready
    where
      go :
          (q : List ℕ)
          → contents 0 MAX_STREAMS s.vacant_streams ≡ q
          → (vacant : FullSyncMove ℕ)
          → Move.consume_movable 0 MAX_STREAMS s.vacant_streams
            ≡ some ((Fifo.consume (contents 0 MAX_STREAMS s.vacant_streams)).0, vacant)
          → contents 0 MAX_STREAMS vacant
            ≡ (Fifo.consume (contents 0 MAX_STREAMS s.vacant_streams)).1
          → IsReady MAX_STREAMS vacant
          → (o : Option ℕ) × (s' : StreamsManager w) × (create_stream_id MAX_STREAMS sort w s
              ≡ some (o, s'))
            × StreamCreated live s s' o
      go [] eq vacant e left ready = (
        none,
        record s {
          created_streams_count = add_u32 s.created_streams_count 1;
          used_streams_count = add_u32 s.used_streams_count 1;
          vacant_streams = vacant;
        },
        create_step s vacant none (rw eq at e),
        exhausted (
            omega (
              arith,
              shared_length MAX_STREAMS (contents 0 MAX_STREAMS s.vacant_streams) live v.shared,
              ap length eq,
            )),
      )
      go (x ∷ q) eq vacant e left ready = (
        some x,
        sync_vacant_and_used_streams MAX_STREAMS sort w (taken x vacant s),
        create_step s vacant (some x) (rw eq at e),
        opened x (hand_out MAX_STREAMS x q live all).0 (hand_out MAX_STREAMS x q live all).1
            (taken-IsManaged x q vacant v eq (rw eq at left) ready) flags,
      )
        where
          all : IsShared MAX_STREAMS (x ∷ q) live
          all i = rw eq at (v.shared i)

          flags :
              (sync_vacant_and_used_streams MAX_STREAMS sort w
                (taken x vacant s)).keep_streams_running
              ≡ set s.keep_streams_running x true
          flags = unfold sync_vacant_and_used_streams in refl
