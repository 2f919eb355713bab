-- ===== src/Multi/Fanout/Rounds.antt =====
-- The loop of a send over the used streams' queues, each of which has room for the event.
use mathlib.Core.Path.{subst}
use reactive_mutiny.Common.{
  ℕ, suc, zero, ◌+◌, ◌<◌, ◌≤◌, ◌≡◌, ◌≢◌, refl, sym, ap, ◌∙◌, Bool, true, false, Bool-cases, inl,
  inr, none, some, List, [], ◌∷◌, ◌++◌, arith, length, length-set, get_or, set, get_or-set_self,
  get_or-set_ne, count, replicate, leb, lt→ltb, ◌==◌, if◌then◌else◌, ◌>>=◌,
}
use reactive_mutiny.Fifo
use reactive_mutiny.Container.{MoveContainer}
use reactive_mutiny.Streams.{u32_max, Wakers, Sort, StreamsManager, wake_stream}
use reactive_mutiny.Multi.Fanout.{Fanout, try_publish, publish_to, publish_each}

module _ {ℓ} {A : Type ℓ} (c : MoveContainer A) (wake_up_to MAX_STREAMS : ℕ) (sort : Sort)
    (w : Wakers) where
  abbrev Open : Type ℓ
  Open = Fanout c wake_up_to MAX_STREAMS sort w

  -- The events that wait for a stream, oldest first.
  abbrev pub waiting : ℕ → Open → List A
  waiting stream_id s = c.contents (get_or s.channel stream_id c.new)

  -- Every stream's queue is ready for an operation.
  pub record AreReady (s : Open) : Type 0 where
    pub shape : length s.channel ≡ MAX_STREAMS
    pub ready : (i : ℕ) → c.IsReady (get_or s.channel i c.new)

  -- Whether an event is announced to the stream: its queue is short.
  abbrev pub is_short : ℕ → Open → Bool
  is_short stream_id s = leb (length (waiting stream_id s) + 1) wake_up_to

  abbrev pub announced : List ℕ → Open → StreamsManager w → StreamsManager w
  announced [] s manager = manager
  announced (i ∷ ids) s manager =
      announced ids s (if is_short i s then wake_stream MAX_STREAMS sort w i manager else manager)

  set-IsReady :
      (s : Open) (i : ℕ) (q : c.State)
      → AreReady s
      → i < length s.channel
      → c.IsReady q
      → (j : ℕ) → c.IsReady (get_or (set s.channel i q) j c.new)
  set-IsReady s i q v lt fine j = elim (Bool-cases (i == j)) [
    | inl same ↦
        let e : i ≡ j = ground arith in rw (sym e, get_or-set_self s.channel i q c.new lt) fine
    | inr other ↦
        rw (get_or-set_ne s.channel i j q c.new (let n : i ≢ j = ground arith in n)) (v.ready j)
  ]

  -- A queue with room takes the event in the first round.
  publish_to_room :
      (rounds : List (Open → Open)) (i : ℕ) (item : A) (s : Open)
      → AreReady s
      → i < length s.channel
      → length (waiting i s) < c.max_size
      → (q : c.State) × (publish_to c wake_up_to MAX_STREAMS sort w rounds i item s
          ≡ some (
            tt,
            record {
              streams_manager = announced (i ∷ []) s s.streams_manager;
              channel = set s.channel i q;
            },
          ))
        × (c.contents q ≡ waiting i s ++ (item ∷ []))
        × c.IsReady q
  unfolding publish_to try_publish Fifo.publish
  publish_to_room rounds i item s v lt room =
      let (q, e, now, fine) = c.publish_refines item (get_or s.channel i c.new) (v.ready i) in
      let room' = lt→ltb (length (waiting i s)) c.max_size room in
      (q, go rounds q (rw room' at e), rw room' at now, fine)
    where
      go :
          (rounds : List (Open → Open)) (q : c.State)
          → c.publish_movable item (get_or s.channel i c.new)
            ≡ some ((some (length (waiting i s) + 1), none), q)
          → publish_to c wake_up_to MAX_STREAMS sort w rounds i item s
            ≡ some (
              tt,
              record {
                streams_manager = announced (i ∷ []) s s.streams_manager;
                channel = set s.channel i q;
              },
            )
      go [] q e = elim (Bool-cases (is_short i s)) [
        | inl short ↦ rw (◌>>=◌, try_publish, lt→ltb _ _ lt, e, short) refl
        | inr long ↦ rw (◌>>=◌, try_publish, lt→ltb _ _ lt, e, long) refl
      ]
      go (others ∷ rounds) q e = elim (Bool-cases (is_short i s)) [
        | inl short ↦ rw (◌>>=◌, try_publish, lt→ltb _ _ lt, e, short) refl
        | inr long ↦ rw (◌>>=◌, try_publish, lt→ltb _ _ lt, e, long) refl
      ]

  -- The queues of other streams are left alone.
  elsewhere :
      (s : Open) (manager : StreamsManager w) (i j : ℕ) (q : c.State)
      → i ≢ j
      → waiting j (record { streams_manager = manager; channel = set s.channel i q }) ≡ waiting j s
  elsewhere s manager i j q n = ap c.contents (get_or-set_ne s.channel i j q c.new n)

  announced_elsewhere :
      (ids : List ℕ) (s s' : Open) (manager : StreamsManager w)
      → ((j : ℕ) → 0 < count j ids → waiting j s' ≡ waiting j s)
      → announced ids s' manager ≡ announced ids s manager
  announced_elsewhere [] s s' manager h = refl
  announced_elsewhere (i ∷ ids) s s' manager h =
      rw (h i (ground arith)) (announced_elsewhere ids s s' _ (λ j has. h j (ground arith)))

  -- The loop over the used streams: each queue with room gets the event, and nothing else changes.
  pub publish_each_room :
      (rounds : ℕ → List (Open → Open)) (ids : List ℕ) (n : ℕ) (item : A) (s : Open)
      → AreReady s
      → count u32_max ids ≡ 0
      → ((i : ℕ) → count i ids ≤ 1)
      → ((i : ℕ) → 0 < count i ids → (i < MAX_STREAMS) × (length (waiting i s) < c.max_size))
      → (s' : Open) × (publish_each c wake_up_to MAX_STREAMS sort w rounds
            (ids ++ replicate n u32_max)
            item
            s
          ≡ some (tt, s'))
        × AreReady s'
        × ((i : ℕ)
            → waiting i s' ≡ (if count i ids == 0 then waiting i s else waiting i s ++ (item ∷ [])))
        × (s'.streams_manager ≡ announced ids s s.streams_manager)
  unfolding publish_each
  publish_each_room rounds [] zero item s v no_max once room = (s, refl, v, λ i. refl, refl)
  publish_each_room rounds [] (suc n) item s v no_max once room = (s, refl, v, λ i. refl, refl)
  publish_each_room rounds (x ∷ ids) n item s v no_max once room =
      let (q, e, now, fine) = publish_to_room (rounds x) x item s v lt (room x listed).1 in
      let (s2, e2, v2, all, told) =
        publish_each_room rounds ids n item (stored q) (kept q fine) (ground arith)
          (λ i. ground (arith, once i))
          (λ i has. let r = room i (ground arith) in (r.0, rw (other q i has) r.1)) in
      (
        s2,
        rw (not_max, ◌>>=◌, e) e2,
        v2,
        (λ i. all i ∙ shown q now i),
        told ∙ announced_elsewhere ids s (stored q) _ (λ j has. other q j has),
      )
    where
      listed : 0 < count x (x ∷ ids)
      listed = ground arith

      lt : x < length s.channel
      lt = omega (arith, v.shape, (room x listed).0)

      not_max : (x == u32_max) ≡ false
      not_max = ground arith

      unseen : count x ids ≡ 0
      unseen = ground (arith, once x)

      stored : c.State → Open
      stored q = record {
        streams_manager = announced (x ∷ []) s s.streams_manager;
        channel = set s.channel x q;
      }

      kept : (q : c.State) → c.IsReady q → AreReady (stored q)
      kept q fine = record {
        shape = length-set s.channel x q ∙ v.shape;
        ready = λ j. set-IsReady s x q v lt fine j;
      }

      other : (q : c.State) (j : ℕ) → 0 < count j ids → waiting j (stored q) ≡ waiting j s
      other q j has =
          elsewhere s (stored q).streams_manager x j q
            (λ e. let e' : count j ids ≡ 0 = ap (λ k. count k ids) (sym e) ∙ unseen in omega arith)

      here : (q : c.State) → waiting x (stored q) ≡ c.contents q
      here q = ap c.contents (get_or-set_self s.channel x q c.new lt)

      shown :
          (q : c.State)
          → c.contents q ≡ waiting x s ++ (item ∷ [])
          → (i : ℕ)
          → (if count i ids == 0 then waiting i (stored q) else waiting i (stored q) ++ (item ∷ []))
            ≡ (if count i (x ∷ ids) == 0 then waiting i s else waiting i s ++ (item ∷ []))
      shown q now i = elim (Bool-cases (i == x)) [
        | inl same ↦
            let e : i ≡ x = ground arith in
            subst
              (λ k.
                (if count k ids == 0
                  then waiting k (stored q)
                  else waiting k (stored q) ++ (item ∷ []))
                ≡ (if count k (x ∷ ids) == 0 then waiting k s else waiting k s ++ (item ∷ [])))
              (sym e)
              (ap (λ b. if b then waiting x (stored q) else waiting x (stored q) ++ (item ∷ []))
                  (let f : (count x ids == 0) ≡ true = ground (arith, unseen) in f)
                ∙ here q
                ∙ now
                ∙ ap (λ b. if b then waiting x s else waiting x s ++ (item ∷ []))
                    (let f : false ≡ (count x (x ∷ ids) == 0) = ground arith in f))
        | inr differ ↦
            ap (λ l. if count i ids == 0 then l else l ++ (item ∷ []))
              (elsewhere s (stored q).streams_manager x i q (let n : x ≢ i = ground arith in n))
            ∙ ap (λ b. if b then waiting i s else waiting i s ++ (item ∷ []))
                (let f : (count i ids == 0) ≡ (count i (x ∷ ids) == 0) = ground arith in f)
      ]
