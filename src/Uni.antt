-- ===== src/Uni.antt =====
-- The Uni channels of src/uni/channels: every event sent goes to exactly one of the channel's streams.
pub mod Sending
pub mod Delivery
pub mod FullSync
pub mod Atomic
pub mod ZeroCopy
pub mod Movable
