-- ===== src/Atomic.antt =====
-- The lock-free queues of src/ogre_std/ogre_queues/atomic.
pub mod Move
pub mod Concurrent
