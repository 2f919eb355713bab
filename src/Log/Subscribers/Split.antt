-- ===== src/Log/Subscribers/Split.antt =====
-- MMapMeta: what the subscribers of the four kinds of subscription see, whatever is published later.
use reactive_mutiny.Common.{
  ℕ, ◌+◌, ◌<◌, ◌≤◌, ◌≡◌, sym, ap, ◌∙◌, some, List, ◌++◌, arith, length, length-append, take,
  take-take, take-append, drop, drop-append, drop-nil,
}
use reactive_mutiny.Log.{
  MMapMeta, consume_dynamic, consume_fixed, subscribe_to_separated_old_and_new_events,
  subscribe_to_joined_old_and_new_events, subscribe_to_new_events_only,
}
use reactive_mutiny.Log.Topic.{contents, IsQuiet, length-contents, publish_all, publish_all-appends}
use reactive_mutiny.Log.Subscribers.{replay, replay_dynamic, replay_fixed}

module _ {ℓ} {A : Type ℓ} (d : A) where
  -- Where a topic has the elements `old`, and `items` are published once the subscribers are made, in a
  -- buffer with room for them: the subscriber of old events answers `old` and no more, the one of new
  -- events answers `items`, and the joined one answers both, in order. Nothing is lost or repeated.
  pub split_replays :
      (t : MMapMeta A) (items : List A) (fuel : ℕ)
      → IsQuiet t
      → length (contents t) + length items ≤ length t.buffer
      → length (contents t) + length items < fuel
      → (t' : MMapMeta A) × (publish_all d items t ≡ some t')
        × (replay d (consume_fixed d t') fuel (subscribe_to_separated_old_and_new_events d t).0
            ≡ some (contents t))
        × (replay d (consume_dynamic d t') fuel (subscribe_to_separated_old_and_new_events d t).1
            ≡ some items)
        × (replay d (consume_dynamic d t') fuel (subscribe_to_new_events_only d t) ≡ some items)
        × (replay d (consume_dynamic d t') fuel (subscribe_to_joined_old_and_new_events d t)
            ≡ some (contents t ++ items))
  unfolding subscribe_to_separated_old_and_new_events subscribe_to_joined_old_and_new_events
      subscribe_to_new_events_only
  split_replays t items fuel v room enough =
      let (t', e, now, v') = publish_all-appends d items t v room in
      let size : t'.consumer_tail ≡ t.consumer_tail + length items = omega (
        arith,
        length-contents t' v',
        length-contents t v,
        ap length now,
        length-append (contents t) items,
      ) in
      let before : take t.consumer_tail t'.buffer ≡ contents t =
        sym (take-take t.consumer_tail t'.consumer_tail t'.buffer (omega arith))
        ∙ ap (take t.consumer_tail) now
        ∙ ap (λ n. take n (contents t ++ items)) (sym (length-contents t v))
        ∙ take-append (contents t) items in
      let after : drop t.consumer_tail (contents t') ≡ items =
        ap (drop t.consumer_tail) now
        ∙ drop-append t.consumer_tail (contents t) items (omega (arith, length-contents t v))
        ∙ ap (λ l. l ++ items)
            (drop-nil t.consumer_tail (contents t) (sym (length-contents t v))) in
      (
        t',
        e,
        replay_fixed d t' (record { head = 0; fixed_tail = t.consumer_tail }) fuel v' (omega arith)
              (omega arith) (omega (arith, ap length before))
            ∙ ap some before,
        replay_dynamic d t' (record { head = t.consumer_tail }) fuel v' (omega arith)
              (omega (arith, ap length after))
            ∙ ap some after,
        replay_dynamic d t' (record { head = t.consumer_tail }) fuel v' (omega arith)
              (omega (arith, ap length after))
            ∙ ap some after,
        replay_dynamic d t' (record { head = 0 }) fuel v' (omega arith)
              (omega (arith, ap length now, length-append (contents t) items))
            ∙ ap some now,
      )
