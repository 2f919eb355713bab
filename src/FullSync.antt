-- ===== src/FullSync.antt =====
-- src/ogre_std/ogre_queues/full_sync: the queues behind one spin lock.
pub mod Move
