-- ===== src/Audio.antt =====
-- src/audio: what prepares a track for the cache.
pub mod Prepare
pub mod Tasks
pub mod Leaders
pub mod Cooldown
pub mod Librespot
pub mod Sessions
pub mod Container
pub mod Releases
pub mod ReleaseLaws
pub mod Covers
pub mod CoverLaws
