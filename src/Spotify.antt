-- ===== src/Spotify.antt =====
-- src/spotify.rs and src/spotify/parsing.rs: the client of Spotify's service.
pub mod Json
pub mod Uris
pub mod Extract
pub mod Metadata
pub mod Snapshot
pub mod Search
pub mod SnapshotLaws
pub mod UriLaws
pub mod Client
pub mod Costs
pub mod TokenLaws
pub mod Renewal
pub mod Requests
pub mod RequestLaws
pub mod Errors
pub mod Account
pub mod AccountLaws
pub mod Playback
pub mod MetadataLaws
pub mod ProgressLaws
