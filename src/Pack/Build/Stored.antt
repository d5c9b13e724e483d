-- ===== src/Pack/Build/Stored.antt =====
-- What the records and the pack hold after a group was consumed, and keep while others are.
pub mod Records
pub mod Sound
pub mod Kept
pub mod Built
