-- ===== src/Stacks.antt =====
-- The stacks of src/ogre_std/ogre_stacks.
pub mod Atomic
pub mod ParkingLot
