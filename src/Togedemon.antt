-- ===== src/Togedemon.antt =====
-- src/bin/togedemon.rs: the sender that captures Spotify's audio on another machine.
pub mod Sender
pub mod PipeWire
pub mod Silence
