-- ===== src/Tests/Logs.antt =====
-- MMapMeta and the channel over it, on a log of four slots that has two events.
use reactive_mutiny.Common.{ℕ, ◌≡◌, refl, Option, some, [], ◌∷◌, ◌++◌, arith}
use reactive_mutiny.Log
use reactive_mutiny.Log.{MMapMeta, FixedSubscriber, dynamic, fixed}
use reactive_mutiny.Log.Topic.{contents, IsQuiet, publish_all}
use reactive_mutiny.Log.Subscribers.{replay}
use reactive_mutiny.Log.Subscribers.Split.{split_replays}
use reactive_mutiny.Channels.{ok}
use reactive_mutiny.Streams.Living.{living}
use reactive_mutiny.Streams.Wake.{registered}
use reactive_mutiny.Multi.MmapLog
use reactive_mutiny.Multi.MmapLog.{MmapLog}
use reactive_mutiny.Multi.MmapLog.Sending.{OldPolled, mmap_send_lem, consume-OldPolled}
use reactive_mutiny.Tests.Queues.{four}
use reactive_mutiny.Tests.Slots.{held}
use reactive_mutiny.Tests.Channels.{by_insertion, numbered, two_streams, two_streams-IsManaged}

abbrev two_events : MMapMeta ℕ
two_events = record {
  publisher_tail = 2;
  consumer_tail = 2;
  slice_length = 4;
  buffer = 10 ∷ 20 ∷ 0 ∷ 0 ∷ [];
}

two_events-IsQuiet : IsQuiet two_events
two_events-IsQuiet = record {
  settled = refl;
  within = omega arith;
  sized = refl;
  word = omega arith;
}

split_replays_example :
    (t' : MMapMeta ℕ) × (publish_all 0 (30 ∷ []) two_events ≡ some t')
    × (replay 0
          (Log.consume_fixed 0 t')
          4
          (Log.subscribe_to_separated_old_and_new_events 0 two_events).0
        ≡ some (10 ∷ 20 ∷ []))
    × (replay 0
          (Log.consume_dynamic 0 t')
          4
          (Log.subscribe_to_separated_old_and_new_events 0 two_events).1
        ≡ some (30 ∷ []))
    × (replay 0 (Log.consume_dynamic 0 t') 4 (Log.subscribe_to_new_events_only 0 two_events)
        ≡ some (30 ∷ []))
    × (replay 0
          (Log.consume_dynamic 0 t')
          4
          (Log.subscribe_to_joined_old_and_new_events 0 two_events)
        ≡ some (10 ∷ 20 ∷ 30 ∷ []))
split_replays_example =
    split_replays 0 two_events (30 ∷ []) 4 two_events-IsQuiet (omega arith) (omega arith)

-- The stream 0 gets the old events, of which it has one left, and the stream 1 the new ones.
abbrev one_left : FixedSubscriber
one_left = record { head = 1; fixed_tail = 2 }

abbrev log : MmapLog ℕ numbered
log = record {
  streams_manager = two_streams;
  channel = record {
    log_queue = two_events;
    subscribers = fixed one_left ∷ dynamic (record { head = 2 }) ∷ [];
  };
}

mmap_send_lem_example :
    (t : MMapMeta ℕ) × (MmapLog.send 0 4 by_insertion numbered 30 log
      ≡ some (
        ok,
        record {
          streams_manager = record two_streams {
            wakes =
                []
                ++ registered 4 by_insertion numbered
                    (living 4 four by_insertion numbered two_streams)
                    two_streams.wakers;
          };
          channel = record (log.channel) { log_queue = t };
        },
      ))
    × (contents t ≡ 10 ∷ 20 ∷ 30 ∷ [])
    × IsQuiet t
mmap_send_lem_example =
    mmap_send_lem 0 4 by_insertion numbered {live = held} four 30 log two_streams-IsManaged
      two_events-IsQuiet (omega arith) (λ e. omega arith)

consume-OldPolled_example :
    (event : Option ℕ) × (s' : MmapLog ℕ numbered) × (MmapLog.consume 0 4 by_insertion numbered 0
        log
      ≡ some (event, s'))
    × OldPolled 0 4 by_insertion numbered 0 (20 ∷ []) log s' event
consume-OldPolled_example =
    consume-OldPolled 0 4 by_insertion numbered 0 one_left log (omega arith) refl two_events-IsQuiet
      (omega arith) (omega arith)
