-- ===== src/Pack/Build.antt =====
-- Building an audio pack (anki-addon/fast_pack.py: `_read_group`, `consume` and the loop of
-- `_build_audio_pack_locked`, `_restore_partial_build`). The results of the readers come in the order of
-- their groups, since the queue of futures is read from its front.
pub mod Consume
pub mod Read
pub mod Stored
pub mod Restore
pub mod Renewed
pub mod Restart
