-- ===== src/Multi.antt =====
-- The Multi channels of src/multi/channels: every event sent goes to each of the channel's streams.
pub mod Fanout
pub mod ArcFullSync
pub mod ArcAtomic
pub mod MmapLog
pub mod Sharing
pub mod OgreArcFullSync
pub mod OgreArcAtomic
