-- ===== src/Alloc.antt =====
-- src/ogre_std/ogre_alloc: a bounded pool of slots, and the owning references to its slots.
pub mod Pool
pub mod Arc
pub mod Unique
