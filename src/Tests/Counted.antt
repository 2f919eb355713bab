-- ===== src/Tests/Counted.antt =====
-- A queue with metrics over the zero-copy queue of two elements.
use reactive_mutiny.Common.{ℕ}
use reactive_mutiny.Queues.Counted
use reactive_mutiny.Queues.Counted.{NonBlockingQueue}
use reactive_mutiny.Tests.Slots.{ids}
use reactive_mutiny.Tests.ZeroCopies.{stocked}

abbrev queue : NonBlockingQueue ℕ ids
queue = record {
  enqueue_count = 2;
  queue_full_count = 0;
  base_queue = stocked;
  dequeue_count = 0;
  queue_empty_count = 0;
}
