-- ===== src/Stream.antt =====
-- src/server/stream.rs: the playback pipe, the stream manager and the Ogg pump.
pub mod Pipe
pub mod Backlog
pub mod Burst
pub mod Listener
pub mod Heard
pub mod Manager
pub mod Ogg
pub mod Pump
pub mod Pages
pub mod Total
pub mod Playback
pub mod Tags
