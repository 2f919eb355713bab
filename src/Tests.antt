-- ===== src/Tests.antt =====
-- Tests on concrete states, and the theorems at them.
pub mod Queues
pub mod Slots
pub mod Channels
pub mod Threads
pub mod Piles
pub mod ZeroCopies
pub mod Counted
pub mod Averages
pub mod Unis
pub mod Logs
pub mod Multis
