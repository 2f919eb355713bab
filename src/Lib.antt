-- ===== src/Lib.antt =====
-- Reactive-mutiny is a library of event queues, slot allocators and channels that fan events out
-- to asynchronous streams. This development models, from the sources below src/ of the repository,
-- the queue that runs under one lock flag, the lock-free queue, the allocator of slots built over
-- a queue of ids, the two kinds of owners of a slot, the queues of such slots, a stack, the log of
-- events kept in a file, the manager of a channel's streams, which keeps its vacant ids in such a
-- queue, and the Uni and Multi channels, which put a manager and these containers together. Files
-- of the repository are named by their path in it.
--
-- Common and the modules below it hold what the others share: lists with the native numbers,
-- 32-bit words with their wrap-around written out, counting of elements, and the monad of the
-- operations that may never return (`Run`). Ring holds the geometry of a ring buffer, and Fifo the
-- bounded queue that the queues implement.
--
-- FullSync.Move models FullSyncMove of src/ogre_std/ogre_queues/full_sync/full_sync_move.rs and
-- lock and unlock of src/ogre_std/ogre_sync.rs, one definition for each function, by the source's
-- name. The state is the record FullSyncMove: head and tail are the u32 counters, the buffer is
-- the array, and concurrency_guard the lock flag. An operation whose lock is never released has
-- the result `none`. `drop_all` is the loop of Drop; it takes fuel, and one round more than there
-- are elements is enough. `report_full_fn` and `report_empty_fn` are lists: an entry is a round
-- after which the function asks for another, and says what other threads do to the queue
-- meanwhile. BUFFER_SIZE is a power of two up to 2 ^ 30 (IsRingSize): with 2 ^ 31 a full queue's
-- length is a negative i32, and nothing is consumed.
--
-- Atomic.Move models AtomicMove of src/ogre_std/ogre_queues/atomic/atomic_move.rs, whose four
-- counters are moved by fetch_add and compare_exchange. A loop that nobody else ends has the
-- result `none`; the lists of rounds say what other threads do before the next one. Its theorems
-- take the queue with no other operation under way (IsQuiet). Atomic.Concurrent takes the same
-- atomic operations as the steps of any number of threads up to 2 ^ 30, in any order, where a
-- compare_exchange_weak may also fail without a reason.
--
-- Container is the interface of src/ogre_std/ogre_queues/meta_container.rs, with the operations
-- that the allocator uses and the laws it relies on; FullSync.Move.Container and
-- Atomic.Move.Container fill it.
--
-- Alloc.Pool models OgreArrayPoolAllocator of src/ogre_std/ogre_alloc/ogre_array_pool_allocator.rs
-- over any such container of ids. A reference to a slot is the slot's index; `junk` stands for
-- what an uninitialised slot holds, and `drops` records the values whose destructor was run.
-- Alloc.Arc models OgreArc of src/ogre_std/ogre_alloc/ogre_arc.rs: a heap of boxes with a counter
-- and a slot id, where a handle is a box's address and a read through a freed box has the result
-- `none`. Alloc.Unique models OgreUnique of src/ogre_std/ogre_alloc/ogre_unique.rs. The atomic
-- operations on a counter are single steps, taken in any sequence.
--
-- ZeroCopy models FullSyncZeroCopy of src/ogre_std/ogre_queues/full_sync/full_sync_zero_copy.rs: a
-- queue of the ids of an allocator's slots, where both the free ids and the published ones stand
-- in any container of the interface. ZeroCopy.AtomicQueue takes AtomicMove for both, which is
-- AtomicZeroCopy of src/ogre_std/ogre_queues/atomic/atomic_zero_copy.rs.
--
-- Stacks.Atomic models the stack of src/ogre_std/ogre_stacks/non_blocking_atomic_stack.rs, with
-- its metrics; a list says what other threads do after each round that finds the flag taken.
-- Stacks.ParkingLot models that of src/ogre_std/ogre_stacks/non_blocking_parking_lot_stack.rs over a
-- mutex of the parking_lot crate, a parameter (RawMutex).
--
-- Queues models Instruments of src/ogre_std/instruments.rs, and Queues.Counted the NonBlockingQueue of
-- src/ogre_std/ogre_queues/full_sync/non_blocking_queue.rs and of atomic/non_blocking_queue.rs beside
-- it: a zero-copy queue over any container of ids, with its metrics.
--
-- Averages models AtomicIncrementalAverage64 of src/incremental_averages.rs: the word that holds a
-- counter and an average is the state, f32 is a parameter (Float), and a list says what other threads
-- store before each exchange.
--
-- Streams models StreamsManagerBase of src/streams_manager.rs. `wakes` records the wakers woken. A
-- critical section is one step. The standard library's `sort_unstable` and `Waker` are parameters
-- (the records Sort and Wakers), and the panic of create_stream_id is the answer `none`.
--
-- Log models MMapMeta of src/ogre_std/ogre_queues/log_topics/mmap_meta.rs, with its two kinds of
-- subscribers. The mapped file is a list of slots, its counters are u64, and its calls run one at a
-- time. A slot past the file, which the source reads or writes unchecked, is the result `none`.
--
-- Channels has what the channels share: the state that pairs a StreamsManagerBase with a container,
-- and the answers of a send. Channels.Stream models the poll and the drop of MutinyStream of
-- src/mutiny_stream.rs over ChannelConsumer of src/types.rs. Channels.Ending models flush, end_stream
-- and end_all_streams of src/streams_manager.rs: a list holds the sleeps of one millisecond, each with
-- what the rest of the program does meanwhile and whether the timeout has passed when the code looks
-- at the clock; a list that runs out before the code returns is the result `none`.
--
-- Uni.FullSync, Uni.Atomic, Uni.ZeroCopy.FullSync and Uni.ZeroCopy.Atomic model the channels of
-- src/uni/channels/movable and src/uni/channels/zero_copy. A setter is a function on the slot's
-- value, and a future that the code awaits is a computation on the channel's state. Uni.Delivery
-- states what a Uni channel promises of any sequence of sends and polls, and Uni.Movable fills it.
--
-- Multi.Fanout is the text of the channels of src/multi/channels/arc over any queue, and
-- Multi.ArcFullSync and Multi.ArcAtomic are the two channels; a sender that finds a queue full sleeps
-- and tries again, and a list holds what others do meanwhile. The Arc of the standard library is
-- not told apart from the event it holds. Multi.Sharing is the text of the channels of
-- src/multi/channels/ogre_arc over any queue, with the handles of Alloc.Arc, and
-- Multi.OgreArcFullSync and Multi.OgreArcAtomic are the two. Multi.MmapLog models
-- src/multi/channels/reference/mmap_log.rs. Where these channels differ from each other in the
-- largest length for which they wake a stream, it is a parameter.
--
-- Not modelled: the printers and comparisons of these types; flush and the graceful endings of the
-- ogre_arc channels, which call those of the manager; the crossbeam channels, whose queue is a
-- third party's; the methods of the log whose body is todo!(); peek_remaining of the zero-copy
-- queues; the order of AtomicMove's elements under concurrency; the blocking stack and queue, the
-- bits of src/instruments.rs, Uni, Multi and the stream executor. The weak orderings of the atomics
-- are outside: every atomic operation takes effect at once, and a weak exchange fails without a
-- reason in Atomic.Concurrent only.
pub mod Common
pub mod Ring
pub mod Fifo
pub mod Container
pub mod FullSync
pub mod Atomic
pub mod Alloc
pub mod Stacks
pub mod Streams
pub mod ZeroCopy
pub mod Averages
pub mod Queues
pub mod Log
pub mod Channels
pub mod Uni
pub mod Multi
pub mod Tests
