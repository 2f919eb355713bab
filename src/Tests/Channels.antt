-- ===== src/Tests/Channels.antt =====
-- The streams' manager on a concrete state: the streams 0 and 1 live, the ids 2 and 3 are vacant.
use reactive_mutiny.Common.{
  ℕ, ◌+◌, ◌≡◌, refl, true, false, Option, none, some, List, [], ◌∷◌, arith, count, remove, get_or,
  leb, ◌==◌, if◌then◌else◌,
}
use reactive_mutiny.Streams
use reactive_mutiny.Streams.{Wakers, IsAscending, Sort, StreamsManager, u32_max}
use reactive_mutiny.Streams.Sync.{sync_used-listing}
use reactive_mutiny.Streams.Lifecycle.{IsManaged, StreamCreated, create_stream_id-StreamCreated}
use reactive_mutiny.Streams.Drop.{report_stream_dropped-IsManaged}
use reactive_mutiny.Streams.Cancel.{cancel_all_streams_ends, dropped_still_running}
use reactive_mutiny.Streams.Wake.{Registered, register_stream_waker-Registered}
use reactive_mutiny.Tests.Queues.{four}
use reactive_mutiny.Tests.Slots.{two_free, two_free-IsReady, held, held-IsShared}

-- Insertion sort
abbrev pub insert : ℕ → List ℕ → List ℕ
insert x [] = x ∷ []
insert x (y ∷ ys) = let rest = insert x ys in if leb x y then x ∷ y ∷ ys else y ∷ rest

abbrev pub insertion_sort : List ℕ → List ℕ
insertion_sort [] = []
insertion_sort (x ∷ xs) = insert x (insertion_sort xs)

count-insert : (i x : ℕ) (xs : List ℕ) → count i (insert x xs) ≡ count i (x ∷ xs)
count-insert i x [] = refl
count-insert i x (y ∷ ys) = ground (arith, count-insert i x ys)

pub count-insertion_sort : (i : ℕ) (xs : List ℕ) → count i (insertion_sort xs) ≡ count i xs
count-insertion_sort i [] = refl
count-insertion_sort i (x ∷ xs) =
    omega (arith, count-insert i x (insertion_sort xs), count-insertion_sort i xs)

insert-IsAscending : (x : ℕ) (ys : List ℕ) → IsAscending ys → IsAscending (insert x ys)
insert-IsAscending x [] h = tt
insert-IsAscending x (y ∷ []) h = ground arith
insert-IsAscending x (y ∷ z ∷ ys) h = ground (arith, insert-IsAscending x (z ∷ ys))

pub insertion_sort-IsAscending : (xs : List ℕ) → IsAscending (insertion_sort xs)
insertion_sort-IsAscending [] = tt
insertion_sort-IsAscending (x ∷ xs) =
    insert-IsAscending x (insertion_sort xs) (insertion_sort-IsAscending xs)

abbrev pub by_insertion : Sort
by_insertion = record {
  sort_unstable = insertion_sort;
  same_elements = count-insertion_sort;
  ascending = insertion_sort-IsAscending;
}

abbrev pub numbered : Wakers
numbered = record { Waker = ℕ; will_wake = λ a b. a == b }

abbrev pub two_streams : StreamsManager numbered
two_streams = record {
  vacant_streams = two_free;
  used_streams = 0 ∷ 1 ∷ u32_max ∷ u32_max ∷ [];
  used_streams_count = 2;
  created_streams_count = 5;
  finished_streams_count = 3;
  wakers = some 7 ∷ none ∷ none ∷ none ∷ [];
  keep_streams_running = true ∷ true ∷ false ∷ false ∷ [];
  wakes = [];
}

pub two_streams-IsManaged : IsManaged 4 four by_insertion numbered held two_streams
two_streams-IsManaged = record {
  ready = two_free-IsReady;
  shared = held-IsShared;
  listed = refl;
  counted = refl;
  balanced = refl;
  finished_word = omega arith;
  used_shape = refl;
  wakers_shape = refl;
  flags_shape = refl;
}

sync_used-listing_example :
    Streams.sync_used 4 by_insertion (3 ∷ 1 ∷ []) (9 ∷ 9 ∷ 9 ∷ 9 ∷ [])
    ≡ 0 ∷ 2 ∷ u32_max ∷ u32_max ∷ []
sync_used-listing_example =
    sync_used-listing 4 by_insertion (3 ∷ 1 ∷ []) (9 ∷ 9 ∷ 9 ∷ 9 ∷ []) refl (λ j. ground arith)

create_stream_id-StreamCreated_example :
    (o : Option ℕ) × (s' : StreamsManager numbered) × (Streams.create_stream_id 4 by_insertion
        numbered two_streams
      ≡ some (o, s'))
    × StreamCreated 4 four by_insertion numbered held two_streams s' o
create_stream_id-StreamCreated_example =
    create_stream_id-StreamCreated 4 four by_insertion numbered {live = held} two_streams
      two_streams-IsManaged

report_stream_dropped-IsManaged_example :
    (s' : StreamsManager numbered) × (Streams.report_stream_dropped 4 by_insertion numbered 0
        two_streams
      ≡ some (tt, s'))
    × IsManaged 4 four by_insertion numbered (remove 0 held) s'
    × (get_or s'.wakers 0 none ≡ none)
    × (s'.keep_streams_running ≡ true ∷ true ∷ false ∷ false ∷ [])
report_stream_dropped-IsManaged_example =
    report_stream_dropped-IsManaged 4 four by_insertion numbered {live = held} 0 two_streams
      two_streams-IsManaged (omega arith)

cancel_all_streams_ends_example :
    Streams.keep_stream_running 4 by_insertion numbered 1
      (Streams.cancel_all_streams 4 by_insertion numbered two_streams)
    ≡ (if count 1 held == 0
        then Streams.keep_stream_running 4 by_insertion numbered 1 two_streams
        else false)
cancel_all_streams_ends_example =
    cancel_all_streams_ends 4 by_insertion numbered four {live = held} two_streams
      two_streams-IsManaged 1

running_0 : Streams.keep_stream_running 4 by_insertion numbered 0 two_streams ≡ true
running_0 = unfold Streams.keep_stream_running in refl

dropped_still_running_example :
    (s' : StreamsManager numbered) × (Streams.report_stream_dropped 4 by_insertion numbered 0
        two_streams
      ≡ some (tt, s'))
    × (Streams.is_any_stream_running 4 by_insertion numbered s' ≡ true)
    × (Streams.running_streams_count 4 by_insertion numbered s' + 1 ≡ 2)
dropped_still_running_example =
    dropped_still_running 4 by_insertion numbered four {live = held} 0 two_streams
      two_streams-IsManaged (omega arith) running_0

register_stream_waker-Registered_example :
    Registered 4 by_insertion numbered 0 8 two_streams
      (Streams.register_stream_waker 4 by_insertion numbered 0 8 two_streams)
register_stream_waker-Registered_example =
    register_stream_waker-Registered 4 by_insertion numbered 0 8 two_streams (omega arith)
