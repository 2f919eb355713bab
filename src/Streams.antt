-- ===== src/Streams.antt =====
-- StreamsManagerBase of src/streams_manager.rs: the ids of a channel's streams, their wakers, and the
-- flags that keep them running. A critical section under `streams_lock` or `wakers_lock` is one step.
pub mod Listing
pub mod Sync
pub mod Lifecycle
pub mod Drop
pub mod New
pub mod Cancel
pub mod Wake
pub mod Living
use reactive_mutiny.Common.{
  ℕ, suc, zero, ◌+◌, ◌-◌, ◌%◌, ◌^◌, Bool, true, false, Option, none, some, List, [], ◌∷◌, ◌++◌,
  get_or, set, replicate, up_from, add_u32, sub_u32, ltb, ◌==◌, if◌then◌else◌, Run, ◌>>=◌, not,
  ◌||◌, ◌≤◌, count, ◌≡◌,
}
use reactive_mutiny.FullSync.Move
use reactive_mutiny.FullSync.Move.{FullSyncMove}

-- `Waker` of std::task.
pub record Wakers : Type 1 where
  pub Waker : Type 0
  pub will_wake : Waker → Waker → Bool

-- Ascending order, as `sort_unstable` leaves it.
abbrev pub IsAscending : List ℕ → Type 0
IsAscending [] = Unit
IsAscending (x ∷ []) = Unit
IsAscending (x ∷ y ∷ xs) = (x ≤ y) × IsAscending (y ∷ xs)

-- `sort_unstable` of std: the same elements, as often, in ascending order.
pub record Sort : Type 0 where
  pub sort_unstable : List ℕ → List ℕ
  pub same_elements : (i : ℕ) (xs : List ℕ) → count i (sort_unstable xs) ≡ count i xs
  pub ascending : (xs : List ℕ) → IsAscending (sort_unstable xs)

-- The sentinel `u32::MAX`.
abbrev pub u32_max : ℕ
u32_max = 2 ^ 32 - 1

-- `wakes` records the wakers that were woken, in order.
pub record StreamsManager (w : Wakers) : Type 0 where
  pub vacant_streams : FullSyncMove ℕ
  pub used_streams : List ℕ
  pub used_streams_count : ℕ
  pub created_streams_count : ℕ
  pub finished_streams_count : ℕ
  pub wakers : List (Option w.Waker)
  pub keep_streams_running : List Bool
  pub wakes : List w.Waker

-- `used_streams[pos] = from`, and so on for `n` ids and positions.
pub write_range : ℕ → ℕ → ℕ → List ℕ → List ℕ
write_range zero from pos used = used
write_range (suc n) from pos used = write_range n (from + 1) (pos + 1) (set used pos from)

-- `used_streams[pos..]` all get the sentinel.
pub write_sentinels : ℕ → ℕ → List ℕ → List ℕ
write_sentinels zero pos used = used
write_sentinels (suc n) pos used = write_sentinels n (pos + 1) (set used pos u32_max)

module _ (MAX_STREAMS : ℕ) where
  -- The loop of `sync_vacant_and_used_streams` over the sorted vacant ids: `i` is the next id, and
  -- `pos` is `last_used_stream_id + 1`. Once the vacant ids run out, every id that is left is used.
  pub sync_loop : List ℕ → ℕ → ℕ → List ℕ → ℕ × List ℕ
  unfolding write_range
  sync_loop [] i pos used = (pos + (MAX_STREAMS - i), write_range (MAX_STREAMS - i) i pos used)
  sync_loop (vacant ∷ vacants) i pos used =
      let rest =
        sync_loop vacants (vacant + 1) (pos + (vacant - i)) (write_range (vacant - i) i pos used) in
      if ltb i MAX_STREAMS then rest else (pos, used)

  module _ (sort : Sort) where
    pub sync_used : List ℕ → List ℕ → List ℕ
    unfolding sync_loop write_sentinels
    sync_used vacant used =
        let (pos, written) = sync_loop (sort.sort_unstable vacant) 0 0 used in
        write_sentinels (MAX_STREAMS - pos) pos written

    module _ (w : Wakers) where
      pub sync_vacant_and_used_streams : StreamsManager w → StreamsManager w
      unfolding sync_used
      sync_vacant_and_used_streams s =
          let (front, back) = Move.peek_remaining 0 MAX_STREAMS s.vacant_streams in
          record s { used_streams = sync_used (front ++ back) s.used_streams }

      publish_ids : List ℕ → Run (FullSyncMove ℕ) (Unit {0})
      publish_ids [] = λ vacant. some (tt, vacant)
      publish_ids (stream_id ∷ ids) = do
        _ ← Move.publish_movable 0 MAX_STREAMS stream_id
        publish_ids ids

      pub new : Option (StreamsManager w)
      unfolding publish_ids
      new = elim (publish_ids (up_from (MAX_STREAMS % 2 ^ 32) 0) (Move.new 0 MAX_STREAMS)) [
        | none ↦ none
        | some (_, vacant) ↦ some (record {
          vacant_streams = vacant;
          used_streams = replicate MAX_STREAMS u32_max;
          used_streams_count = 0;
          created_streams_count = 0;
          finished_streams_count = 0;
          wakers = replicate MAX_STREAMS none;
          keep_streams_running = replicate MAX_STREAMS false;
          wakes = [];
        })
      ]

      -- The answer `none` is the panic on exhausted streams; the counters have been raised by then.
      pub create_stream_id : Run (StreamsManager w) (Option ℕ)
      unfolding sync_vacant_and_used_streams
      create_stream_id s =
          let counted = record s {
            created_streams_count = add_u32 s.created_streams_count 1;
            used_streams_count = add_u32 s.used_streams_count 1;
          } in
          elim (Move.consume_movable 0 MAX_STREAMS s.vacant_streams) [
            | none ↦ none
            | some (none, vacant) ↦ some (none, record counted { vacant_streams = vacant })
            | some (some stream_id, vacant) ↦ some (
              some stream_id,
              sync_vacant_and_used_streams (record counted {
                vacant_streams = vacant;
                keep_streams_running = set s.keep_streams_running stream_id true;
              }),
            )
          ]

      -- No waker registered, also after a second look under the lock: nobody is woken.
      unfoldable pub wake_stream : ℕ → StreamsManager w → StreamsManager w
      wake_stream stream_id s = elim (get_or s.wakers stream_id none) [
        | none ↦ s
        | some waker ↦ record s { wakes = s.wakes ++ (waker ∷ []) }
      ]

      pub wake_streams : List ℕ → StreamsManager w → StreamsManager w
      unfolding wake_stream
      wake_streams [] s = s
      wake_streams (stream_id ∷ ids) s =
          let rest = wake_streams ids (wake_stream stream_id s) in
          if stream_id == u32_max then s else rest

      pub wake_all_streams : StreamsManager w → StreamsManager w
      unfolding wake_streams
      wake_all_streams s = wake_streams (up_from (MAX_STREAMS % 2 ^ 32) 0) s

      unfoldable pub keep_stream_running : ℕ → StreamsManager w → Bool
      keep_stream_running stream_id s = get_or s.keep_streams_running stream_id false

      any_running : List ℕ → StreamsManager w → Bool
      unfolding keep_stream_running
      any_running [] s = false
      any_running (stream_id ∷ ids) s =
          if stream_id == u32_max
          then false
          else (keep_stream_running stream_id s || any_running ids s)

      pub is_any_stream_running : StreamsManager w → Bool
      unfolding any_running
      is_any_stream_running s = any_running (up_from (MAX_STREAMS % 2 ^ 32) 0) s

      unfoldable pub cancel_stream : ℕ → StreamsManager w → StreamsManager w
      unfolding wake_stream
      cancel_stream stream_id s =
          wake_stream stream_id
            (record s { keep_streams_running = set s.keep_streams_running stream_id false })

      unfoldable pub cancel_streams : List ℕ → StreamsManager w → StreamsManager w
      cancel_streams [] s = s
      cancel_streams (stream_id ∷ ids) s =
          let rest = cancel_streams ids (cancel_stream stream_id s) in
          if stream_id == u32_max then s else rest

      unfoldable pub cancel_all_streams : StreamsManager w → StreamsManager w
      unfolding cancel_streams
      cancel_all_streams s = cancel_streams s.used_streams s

      pub set_waker : ℕ → w.Waker → StreamsManager w → StreamsManager w
      set_waker stream_id waker s = record s {
        wakers = set s.wakers stream_id (some waker);
        wakes = s.wakes ++ (waker ∷ []);
      }

      pub register_stream_waker : ℕ → w.Waker → StreamsManager w → StreamsManager w
      unfolding set_waker
      register_stream_waker stream_id waker s = elim (get_or s.wakers stream_id none) [
        | some registered ↦
            if not (w.will_wake registered waker) then set_waker stream_id waker s else s
        | none ↦ set_waker stream_id waker s
      ]

      pub report_stream_dropped : ℕ → Run (StreamsManager w) (Unit {0})
      unfolding sync_vacant_and_used_streams
      report_stream_dropped stream_id s =
          elim (Move.publish_movable 0 MAX_STREAMS stream_id s.vacant_streams) [
            | none ↦ none
            | some (_, vacant) ↦ some (
              tt,
              sync_vacant_and_used_streams (record s {
                wakers = set s.wakers stream_id none;
                finished_streams_count = add_u32 s.finished_streams_count 1;
                used_streams_count = sub_u32 s.used_streams_count 1;
                vacant_streams = vacant;
              }),
            )
          ]

      unfoldable pub running_streams_count : StreamsManager w → ℕ
      running_streams_count s = s.used_streams_count
