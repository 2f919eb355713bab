-- ===== src/Multi/MmapLog/Sending.antt =====
-- MmapLog: what a send does to the log and to the streams, and how a stream of old events ends.
use mathlib.Core.List.{append_assoc, append-nil}
use reactive_mutiny.Common.{
  ℕ, ◌+◌, ◌-◌, ◌%◌, ◌^◌, ◌<◌, ◌≤◌, ◌≡◌, ◌≢◌, refl, sym, ap, ap₂, ◌∙◌, false, Option-cases, inl, inr,
  Option, none, some, List, [], ◌∷◌, ◌++◌, arith, length, get_or, set, get_or-set_self, lt→ltb,
  count, replicate, ◌==◌, ==_iff, ◌>>=◌, IsRingSize, non_zero_u32,
}
use reactive_mutiny.Log.{Subscriber, MMapMeta, FixedSubscriber, dynamic, fixed, consume_fixed}
use reactive_mutiny.Log.Topic.{contents, IsQuiet, publish_movable-appends}
use reactive_mutiny.Log.Subscribers.{next, old_ones, consume_fixed-next}
use reactive_mutiny.Streams.{
  u32_max, Wakers, Sort, StreamsManager, wake_stream, cancel_stream, keep_stream_running,
  running_streams_count,
}
use reactive_mutiny.Streams.Lifecycle.{IsManaged}
use reactive_mutiny.Streams.Living.{living, used-living, length-living, living_no_max}
use reactive_mutiny.Streams.Cancel.{keep-cancel_stream}
use reactive_mutiny.Streams.Wake.{registered}
use reactive_mutiny.Channels.{ok, on_streams}
use reactive_mutiny.Multi.MmapLog.{MmapLog, wake_used, send, consume, consume_by}

module _ {ℓ} {A : Type ℓ} (d : A) (MAX_STREAMS : ℕ) (sort : Sort) (w : Wakers) where
  is_some : (n : ℕ) → n ≢ 0 → non_zero_u32 n ≡ some n
  is_some n h = ground arith

  wake_used-registered :
      (ids rest : List ℕ) (s : StreamsManager w)
      → count u32_max ids ≡ 0
      → wake_used d MAX_STREAMS sort w (length ids) (ids ++ rest) s
        ≡ some (tt, record s { wakes = s.wakes ++ registered MAX_STREAMS sort w ids s.wakers })
  unfolding wake_used wake_stream registered
  wake_used-registered [] rest s none_max =
      ap (λ l. some (tt, record s { wakes = l })) (sym (append-nil s.wakes))
  wake_used-registered (x ∷ ids) rest s none_max =
      let more : (x == u32_max) ≡ false = ground arith in
      elim (Option-cases (get_or s.wakers x none)) [
        | inl e ↦
            rw (more, e, wake_stream, registered) (wake_used-registered ids rest s (ground arith))
        | inr (a, e) ↦
            rw (more, e, wake_stream, registered)
              (wake_used-registered ids rest (record s { wakes = s.wakes ++ (a ∷ []) })
                  (ground arith)
                ∙ ap (λ l. some (tt, record s { wakes = l }))
                    (append_assoc s.wakes (a ∷ []) (registered MAX_STREAMS sort w ids s.wakers)))
      ]

  -- With room in the buffer, `send` appends the event to the log and wakes every living stream that
  -- registered a waker, in the order of the ids, unless the number of events comes to a multiple of
  -- 2 ^ 32.
  pub mmap_send_lem :
      {live : List ℕ} (sz : IsRingSize MAX_STREAMS) (item : A) (s : MmapLog A w)
      → IsManaged MAX_STREAMS sz sort w live s.streams_manager
      → IsQuiet s.channel.log_queue
      → length (contents s.channel.log_queue) < length s.channel.log_queue.buffer
      → (length (contents s.channel.log_queue) + 1) % 2 ^ 32 ≢ 0
      → (t : MMapMeta A) × (send d MAX_STREAMS sort w item s
          ≡ some (
            ok,
            record {
              streams_manager = record (s.streams_manager) {
                wakes =
                    s.streams_manager.wakes
                    ++ registered MAX_STREAMS sort w
                        (living MAX_STREAMS sz sort w s.streams_manager)
                        s.streams_manager.wakers;
              };
              channel = record (s.channel) { log_queue = t };
            },
          ))
        × (contents t ≡ contents s.channel.log_queue ++ (item ∷ []))
        × IsQuiet t
  unfolding send running_streams_count
  mmap_send_lem sz item s m v room some_word =
      let (t, e, now, same, v') = publish_movable-appends d item s.channel.log_queue v room in
      let told : wake_used d MAX_STREAMS sort w s.streams_manager.used_streams_count
            s.streams_manager.used_streams s.streams_manager
          ≡ some (
            tt,
            record (s.streams_manager) {
              wakes =
                  s.streams_manager.wakes
                  ++ registered MAX_STREAMS sort w (living MAX_STREAMS sz sort w s.streams_manager)
                      s.streams_manager.wakers;
            },
          ) =
        ap₂ (λ n l. wake_used d MAX_STREAMS sort w n l s.streams_manager)
          (sym (length-living MAX_STREAMS sz sort w s.streams_manager m))
          (used-living MAX_STREAMS sz sort w s.streams_manager m)
        ∙ wake_used-registered (living MAX_STREAMS sz sort w s.streams_manager)
            (replicate (MAX_STREAMS - length (living MAX_STREAMS sz sort w s.streams_manager))
              u32_max)
            s.streams_manager (living_no_max MAX_STREAMS sz sort w s.streams_manager m) in
      (
        t,
        (rw (send, e) (rw (is_some _ some_word, ◌>>=◌, running_streams_count, told) refl)),
        now,
        v',
      )

  -- Where the number of events comes to a multiple of 2 ^ 32, `send` panics: the log has the event, but
  -- answers no length for it.
  pub send_panics :
      (item : A) (s : MmapLog A w)
      → IsQuiet s.channel.log_queue
      → length (contents s.channel.log_queue) < length s.channel.log_queue.buffer
      → (length (contents s.channel.log_queue) + 1) % 2 ^ 32 ≡ 0
      → send d MAX_STREAMS sort w item s ≡ none
  unfolding send
  send_panics item s v room zero_word =
      let (t, e, now, same, v') = publish_movable-appends d item s.channel.log_queue v room in
      let e' = rw zero_word at e in rw (send, e') refl

  abbrev pub subscriber_of : ℕ → MmapLog A w → Subscriber
  subscriber_of stream_id s = get_or s.channel.subscribers stream_id (dynamic (record { head = 0 }))

  -- How a poll of a stream of old events ends: the log is left as it is.
  pub data OldPolled (stream_id : ℕ) (left : List A) (s s' : MmapLog A w) : Option A → Type ℓ where
    got :
        (item : A) (rest : List A) (next_one : FixedSubscriber)
        → left ≡ item ∷ rest
        → subscriber_of stream_id s' ≡ fixed next_one
        → old_ones d s'.channel.log_queue next_one ≡ rest
        → s'.channel.log_queue ≡ s.channel.log_queue
        → s'.streams_manager ≡ s.streams_manager
        → OldPolled stream_id left s s' (some item)
    finished :
        left ≡ []
        → s'.channel.log_queue ≡ s.channel.log_queue
        → keep_stream_running MAX_STREAMS sort w stream_id s'.streams_manager ≡ false
        → OldPolled stream_id left s s' none

  -- A stream of old events gets the oldest event that it has not got, of those that were there when it
  -- was created, and has the others left; the poll that finds none left tells the stream to end.
  pub consume-OldPolled :
      (stream_id : ℕ) (subscriber : FixedSubscriber) (s : MmapLog A w)
      → stream_id < length s.channel.subscribers
      → subscriber_of stream_id s ≡ fixed subscriber
      → IsQuiet s.channel.log_queue
      → subscriber.head ≤ subscriber.fixed_tail
      → subscriber.fixed_tail ≤ s.channel.log_queue.consumer_tail
      → (event : Option A) × (s' : MmapLog A w) × (consume d MAX_STREAMS sort w stream_id s
          ≡ some (event, s'))
        × OldPolled stream_id (old_ones d s.channel.log_queue subscriber) s s' event
  unfolding consume consume_by next
  consume-OldPolled i subscriber s lt at_id v le old =
      let (next_one, e, left, le, same) =
        consume_fixed-next d s.channel.log_queue subscriber v le old in
      go (old_ones d s.channel.log_queue subscriber) refl next_one e left
    where
      moved : FixedSubscriber → MmapLog A w
      moved next_one = record s {
        channel = record (s.channel) { subscribers = set s.channel.subscribers i (fixed next_one) };
      }

      go :
          (left : List A)
          → old_ones d s.channel.log_queue subscriber ≡ left
          → (next_one : FixedSubscriber)
          → consume_fixed d s.channel.log_queue subscriber
            ≡ some ((next (old_ones d s.channel.log_queue subscriber)).0, next_one)
          → old_ones d s.channel.log_queue next_one
            ≡ (next (old_ones d s.channel.log_queue subscriber)).1
          → (event : Option A) × (s' : MmapLog A w) × (consume d MAX_STREAMS sort w i s
              ≡ some (event, s'))
            × OldPolled i (old_ones d s.channel.log_queue subscriber) s s' event
      go [] eq next_one e rest = (
        none,
        on_streams (cancel_stream MAX_STREAMS sort w i) (moved next_one),
        (let e' = rw eq at e in rw (consume, lt→ltb _ _ lt, at_id, consume_by, e') refl),
        finished eq refl (
            keep-cancel_stream MAX_STREAMS sort w i i s.streams_manager
            ∙ rw ((==_iff i i).1 refl) refl),
      )
      go (x ∷ left) eq next_one e rest = (
        some x,
        moved next_one,
        (let e' = rw eq at e in rw (consume, lt→ltb _ _ lt, at_id, consume_by, e') refl),
        got x left next_one eq
            (get_or-set_self s.channel.subscribers i (fixed next_one)
              (dynamic (record { head = 0 })) lt)
            (rest ∙ ap (λ l. (next l).1) eq) refl refl,
      )
