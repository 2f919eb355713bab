-- ===== src/Tests/Multis.antt =====
-- The Multi channels with two streams, and the flush of a channel.
use reactive_mutiny.Common.{
  ℕ, zero, suc, ◌-◌, ◌<◌, ◌≤◌, ◌≡◌, refl, true, false, some, List, [], ◌∷◌, ◌++◌, arith, length,
  get_or, count, ◌==◌, if◌then◌else◌,
}
use reactive_mutiny.FullSync.Move.{FullSyncMove}
use reactive_mutiny.Alloc.Arc.Counting.{IsCounted}
use reactive_mutiny.Channels.{ok, Channel, on_streams}
use reactive_mutiny.Channels.Ending
use reactive_mutiny.Channels.Ending.{Sleep, Ended}
use reactive_mutiny.Channels.Ending.Draining.{
  running_count, keeps_running, flush_returns, end_all_streams_returns,
}
use reactive_mutiny.Multi.ArcFullSync
use reactive_mutiny.Multi.ArcFullSync.{arc_full_sync_send_reaches_all}
use reactive_mutiny.Multi.Fanout.{Fanout}
use reactive_mutiny.Multi.Fanout.Rounds.{AreReady, waiting, announced}
use reactive_mutiny.Multi.Fanout.Delivery.{IsOpen, listed}
use reactive_mutiny.Multi.Sharing
use reactive_mutiny.Multi.Sharing.{Shared}
use reactive_mutiny.Multi.Sharing.Counting.{send_derived-IsCounted}
use reactive_mutiny.Streams
use reactive_mutiny.Tests.Queues.{four, wrapped, wrapped-IsReady}
use reactive_mutiny.Tests.Slots.{ids, held, arcs, handles, arcs-IsCounted}
use reactive_mutiny.Tests.Channels.{by_insertion, numbered, two_streams, two_streams-IsManaged}
use reactive_mutiny.FullSync.Move.Container.{new-IsReady}
use reactive_mutiny.FullSync.Move.Refine.{IsReady}

abbrev fresh : FullSyncMove ℕ
fresh = record { head = 0; tail = 0; concurrency_guard = false; buffer = 0 ∷ 0 ∷ 0 ∷ 0 ∷ [] }

fresh-IsReady : IsReady 4 fresh
fresh-IsReady = record {
  free = refl;
  shape = refl;
  head_word = omega arith;
  tail_word = omega arith;
  bounded = omega arith;
}

-- The stream 0 has two events waiting, the others none.
abbrev queues : List (FullSyncMove ℕ)
queues = wrapped ∷ fresh ∷ fresh ∷ fresh ∷ []

abbrev multi : Fanout ids 1 4 by_insertion numbered
multi = record { streams_manager = two_streams; channel = queues }

queues-AreReady : AreReady ids 1 4 by_insertion numbered multi
queues-AreReady = record { shape = refl; ready = go }
  where
    go : (i : ℕ) → ids.IsReady (get_or queues i ids.new)
    go zero = wrapped-IsReady
    go (suc zero) = fresh-IsReady
    go (suc (suc zero)) = fresh-IsReady
    go (suc (suc (suc zero))) = fresh-IsReady
    go (suc (suc (suc (suc i)))) = (new-IsReady 0 4).0

multi-IsOpen : IsOpen ids 1 4 by_insertion numbered four held multi
multi-IsOpen = record { managed = two_streams-IsManaged; queues = queues-AreReady }

room : (i : ℕ) → 0 < count i held → length (waiting ids 1 4 by_insertion numbered i multi) < 4
room zero has = omega arith
room (suc zero) has = omega arith
room (suc (suc i)) has = absurd (ground arith)

arc_full_sync_send_reaches_all_example :
    (s' : Fanout ids 1 4 by_insertion numbered) × (ArcFullSync.send 0 4 four 4 by_insertion numbered
        (λ i. [])
        50
        multi
      ≡ some (ok, s'))
    × AreReady ids 1 4 by_insertion numbered s'
    × ((i : ℕ)
        → waiting ids 1 4 by_insertion numbered i s' ≡ (
            if count i held == 0
            then waiting ids 1 4 by_insertion numbered i multi
            else waiting ids 1 4 by_insertion numbered i multi ++ (50 ∷ [])))
    × (s'.streams_manager
        ≡ announced ids 1 4 by_insertion numbered
            (listed ids 1 4 by_insertion numbered four multi)
            multi
            two_streams)
arc_full_sync_send_reaches_all_example =
    arc_full_sync_send_reaches_all 0 4 four 4 by_insertion numbered {live = held} four (λ i. []) 50
      multi multi-IsOpen room

abbrev shared : Shared {D = ℕ} ids ids 4 0 true 1 4 by_insertion numbered
shared = record { dispatchers = multi; arcs = arcs }

send_derived-IsCounted_example :
    (s' : Shared {D = ℕ} ids ids 4 0 true 1 4 by_insertion numbered) × (Sharing.send_derived ids ids
        4 0 true 1 4 by_insertion numbered 1 shared
      ≡ some (true, s'))
    × IsCounted ids 4 (1 ∷ 1 ∷ handles) [] s'.arcs
    × (s'.arcs.allocator ≡ arcs.allocator)
    × AreReady ids 1 4 by_insertion numbered s'.dispatchers
    × ((i : ℕ)
        → waiting ids 1 4 by_insertion numbered i s'.dispatchers ≡ (
            if count i held == 0
            then waiting ids 1 4 by_insertion numbered i multi
            else waiting ids 1 4 by_insertion numbered i multi ++ (1 ∷ [])))
    × (s'.dispatchers.streams_manager
        ≡ announced ids 1 4 by_insertion numbered
            (listed ids 1 4 by_insertion numbered four multi)
            multi
            two_streams)
send_derived-IsCounted_example =
    send_derived-IsCounted ids ids 4 0 true 1 4 by_insertion numbered four {live = held}
      {handles = handles} {outside = []} 1 shared multi-IsOpen arcs-IsCounted (omega arith)
      (omega arith) room

-- A channel whose container is the number of its events; during a sleep, one of them is taken.
abbrev counting : Channel ℕ numbered
counting = record { streams_manager = two_streams; channel = 2 }

abbrev take_one : Sleep (Channel ℕ numbered)
take_one = record {
  others = λ s. record { streams_manager = s.streams_manager; channel = s.channel - 1 };
  late = false;
}

flush_returns_example :
    (e : Ended ℕ (Channel ℕ numbered)) × (Ending.flush 4 by_insertion true
        (λ s. s.channel)
        (take_one ∷ take_one ∷ [])
        counting
      ≡ some e)
    × (e.answer ≡ 0)
    × (e.state.channel ≡ 0)
flush_returns_example =
    flush_returns 4 by_insertion true (λ s. s.channel) (take_one ∷ take_one ∷ []) counting
      ((λ s pos. omega arith), refl, ((λ s pos. omega arith), refl, tt)) (omega arith)

-- During a sleep, a stream ends.
abbrev end_one : Sleep (Channel ℕ numbered)
end_one = record {
  others = λ s. record {
    streams_manager = record (s.streams_manager) {
      used_streams_count = s.streams_manager.used_streams_count - 1;
    };
    channel = s.channel;
  };
  late = false;
}

abbrev drained : Channel ℕ numbered
drained = record { streams_manager = two_streams; channel = 0 }

fewer_streams :
    (s : Channel ℕ numbered)
    → 0 < running_count 4 by_insertion true (λ s. s.channel) s
    → running_count 4 by_insertion true (λ s. s.channel) (end_one.others s)
      < running_count 4 by_insertion true (λ s. s.channel) s
unfolding Streams.running_streams_count
fewer_streams s pos = omega arith

two_to_end :
    running_count 4 by_insertion true
      (λ s. s.channel)
      (on_streams (Streams.cancel_all_streams 4 by_insertion numbered) drained)
    ≤ 2
unfolding Streams.running_streams_count Streams.cancel_all_streams Streams.cancel_streams
    Streams.cancel_stream Streams.wake_stream
two_to_end = omega arith

none_started :
    (s : Channel ℕ numbered) (i : ℕ)
    → keeps_running 4 by_insertion true (λ s. s.channel) i s ≡ false
    → keeps_running 4 by_insertion true (λ s. s.channel) i (end_one.others s) ≡ false
unfolding Streams.keep_stream_running
none_started s i e = e

end_all_streams_returns_example :
    (e : Ended ℕ (Channel ℕ numbered)) × (Ending.end_all_streams 4 by_insertion true
        (λ s. s.channel)
        (end_one ∷ end_one ∷ [])
        false
        drained
      ≡ some e)
    × (e.answer ≡ 0)
    × (running_count 4 by_insertion true (λ s. s.channel) e.state ≡ 0)
    × ((i : ℕ)
        → keeps_running 4 by_insertion true (λ s. s.channel) i e.state ≡ (
            if count i held == 0
            then keeps_running 4 by_insertion true (λ s. s.channel) i e.state
            else false))
end_all_streams_returns_example =
    end_all_streams_returns 4 by_insertion true (λ s. s.channel) four {live = held}
      (end_one ∷ end_one ∷ []) drained two_streams-IsManaged refl
      (fewer_streams, none_started, refl, (fewer_streams, none_started, refl, tt)) two_to_end
