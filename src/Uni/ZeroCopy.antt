-- ===== src/Uni/ZeroCopy.antt =====
-- The Uni channels of src/uni/channels/zero_copy: the events stay in the slots of an allocator.
pub mod FullSync
pub mod Atomic
