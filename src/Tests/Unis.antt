-- ===== src/Tests/Unis.antt =====
-- The Uni channels with two streams, over queues of four slots.
use reactive_mutiny.Common.{ℕ, ◌+◌, ◌≡◌, true, none, some, List, [], ◌∷◌, ◌++◌, arith}
use reactive_mutiny.Atomic.Move
use reactive_mutiny.Atomic.Move.{AtomicMove}
use reactive_mutiny.Atomic.Move.Refine
use reactive_mutiny.FullSync.Move.Refine.{IsReady, contents}
use reactive_mutiny.ZeroCopy.Stock
use reactive_mutiny.ZeroCopy.Stock.{IsStocked}
use reactive_mutiny.Channels.{Sent}
use reactive_mutiny.Uni.Sending.{Offered, next_stream_woken}
use reactive_mutiny.Uni.Delivery.{UniChannel, Call, sends, polls, Log, run, events}
use reactive_mutiny.Uni.FullSync
use reactive_mutiny.Uni.FullSync.{full_sync_send-Offered}
use reactive_mutiny.Uni.FullSync.Setters.{handing_back, full_sync_send_with-send}
use reactive_mutiny.Uni.Atomic
use reactive_mutiny.Uni.Atomic.Reserving.{
  held, held_with, woken, reserve_slot-try_cancel_slot_reserve, reserve_slot-try_send_reserved,
}
use reactive_mutiny.Uni.Movable.{
  full_sync_channel, atomic_channel, full_sync_channel_delivers, atomic_channel_delivers,
}
use reactive_mutiny.Uni.ZeroCopy.FullSync as Slots
use reactive_mutiny.Uni.ZeroCopy.FullSync.{zero_copy_full_sync_send-Offered}
use reactive_mutiny.Tests.Queues.{four, wrapped, wrapped-IsReady}
use reactive_mutiny.Tests.Threads.{around, around-IsQuiet}
use reactive_mutiny.Tests.Slots.{ids}
use reactive_mutiny.Tests.Channels.{by_insertion, numbered, two_streams}
use reactive_mutiny.Tests.ZeroCopies.{stocked, stocked-IsStocked}

abbrev uni : FullSync.FullSync ℕ numbered
uni = record { streams_manager = two_streams; channel = wrapped }

abbrev uni_atomic : Atomic.Atomic ℕ numbered
uni_atomic = record { streams_manager = two_streams; channel = around }

abbrev synced : UniChannel ℕ numbered
synced = full_sync_channel 0 4 four 4 by_insertion numbered

abbrev lock_free : UniChannel ℕ numbered
lock_free = atomic_channel 0 4 four 4 by_insertion numbered

full_sync_send-Offered_example :
    (answer : Sent ℕ) × (s' : FullSync.FullSync ℕ numbered) × (FullSync.send 0 4 4 by_insertion
        numbered 50 uni
      ≡ some (answer, s'))
    × IsReady 4 s'.channel
    × Offered 4 (contents 0 4) (next_stream_woken 4 by_insertion numbered) 50 50 uni s' answer
full_sync_send-Offered_example =
    full_sync_send-Offered 0 4 4 by_insertion numbered four 50 uni wrapped-IsReady

full_sync_send_with-send_example :
    FullSync.send_with 0 4 4 by_insertion numbered (λ x. x + 5) uni
    ≡ handing_back 0 4 4 by_insertion numbered
        (λ x. x + 5)
        (FullSync.send 0 4 4 by_insertion numbered 35 uni)
full_sync_send_with-send_example =
    full_sync_send_with-send 0 4 4 by_insertion numbered four (λ x. x + 5) uni wrapped-IsReady

abbrev calls : List (Call synced)
calls =
    sends 50
    ∷ polls (record { stream_id = 1 }) 8
    ∷ polls (record { stream_id = 0 }) 7
    ∷ sends 60
    ∷ polls (record { stream_id = 0 }) 7
    ∷ []

full_sync_channel_delivers_example :
    (log : Log synced) × (s' : FullSync.FullSync ℕ numbered) × (run synced calls uni
      ≡ some (log, s'))
    × IsReady 4 s'.channel
    × (contents 0 4 wrapped ++ log.sent ≡ events synced log.received ++ contents 0 4 s'.channel)
full_sync_channel_delivers_example =
    full_sync_channel_delivers 0 4 four 4 by_insertion numbered calls uni wrapped-IsReady

abbrev atomic_calls : List (Call lock_free)
atomic_calls =
    polls (record { stream_id = 1 }) 8 ∷ sends 50 ∷ polls (record { stream_id = 0 }) 7 ∷ []

atomic_channel_delivers_example :
    (log : Log lock_free) × (s' : Atomic.Atomic ℕ numbered) × (run lock_free atomic_calls uni_atomic
      ≡ some (log, s'))
    × Refine.IsQuiet 4 s'.channel
    × (Refine.contents 0 4 around ++ log.sent
        ≡ events lock_free log.received ++ Refine.contents 0 4 s'.channel)
atomic_channel_delivers_example =
    atomic_channel_delivers 0 4 four 4 by_insertion numbered atomic_calls uni_atomic around-IsQuiet

reserve_slot-try_cancel_slot_reserve_example :
    (slot : ℕ) × (s' : Atomic.Atomic ℕ numbered) × (Atomic.reserve_slot 0 4 4 by_insertion numbered
        uni_atomic
      ≡ some (some slot, s'))
    × (Atomic.try_cancel_slot_reserve 0 4 4 by_insertion numbered slot s' ≡ some (true, uni_atomic))
reserve_slot-try_cancel_slot_reserve_example =
    reserve_slot-try_cancel_slot_reserve 0 4 4 by_insertion numbered four uni_atomic around-IsQuiet
      (omega arith)

reserve_slot-try_send_reserved_example :
    (slot : ℕ) × (Atomic.reserve_slot 0 4 4 by_insertion numbered uni_atomic
      ≡ some (some slot, held 0 4 4 by_insertion numbered four uni_atomic))
    × (c : AtomicMove ℕ) × (Move.publish_movable 0 4 50 around ≡ some ((some 3, none), c))
    × (Atomic.try_send_reserved 0 4 4 by_insertion numbered slot
          (held_with 0 4 4 by_insertion numbered four 50 uni_atomic)
        ≡ some (
          true,
          record {
            streams_manager = woken {A = ℕ} 0 4 4 by_insertion numbered four 2 two_streams;
            channel = c;
          },
        ))
reserve_slot-try_send_reserved_example =
    reserve_slot-try_send_reserved 0 4 4 by_insertion numbered four 50 uni_atomic around-IsQuiet
      (omega arith)

abbrev uni_zero_copy : Slots.FullSync {D = ℕ} ids 4 0 true 4 four 4 by_insertion numbered
uni_zero_copy = record { streams_manager = two_streams; channel = stocked }

zero_copy_full_sync_send-Offered_example :
    (answer : Sent ℕ) × (s' : Slots.FullSync {D = ℕ} ids 4 0 true 4 four 4 by_insertion numbered)
    × (Slots.send ids 4 0 true 4 four 4 by_insertion numbered 99 uni_zero_copy ≡ some (answer, s'))
    × IsStocked ids ids 4 [] s'.channel
    × Offered 4
        (Stock.contents ids ids 4 0)
        (next_stream_woken 4 by_insertion numbered)
        99
        99
        uni_zero_copy
        s'
        answer
zero_copy_full_sync_send-Offered_example =
    zero_copy_full_sync_send-Offered ids 4 0 true 4 four 4 by_insertion numbered 99 uni_zero_copy
      (omega arith) stocked-IsStocked
