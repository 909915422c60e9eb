-- ===== src/Serialization.antt =====
-- include/hypercomm/serialization: how values become bytes and come back.
pub mod Bytes
pub mod Containers
pub mod Records
pub mod Pointers
pub mod Meeting
pub mod Sizes
pub mod Packing
pub mod Acquire
pub mod Sound
pub mod Sync
pub mod Unpacking
pub mod Images
pub mod Passes
pub mod RoundTrip
pub mod Transfer
mod Tests
