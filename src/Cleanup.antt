-- ===== src/Cleanup.antt =====
-- The removal of loose audio that a pack holds (anki-addon/cleanup.py).
pub mod Compare
