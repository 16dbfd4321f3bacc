-- ===== src/Tests.antt =====
-- The theorems at concrete inputs.
pub mod CacheTests
pub mod StreamTests
pub mod ServerTests
pub mod WorkerTests
pub mod SpotifyTests
pub mod NameTests
pub mod SenderTests
pub mod GateTests
pub mod ReleaseTests
pub mod CoverTests
