-- ===== src/Server.antt =====
-- src/server: the limits, the admin login, the connections and the workers.
pub mod Auth
pub mod RateLimit
pub mod Login
pub mod LoginLaws
pub mod App
pub mod Monitor
pub mod Polling
pub mod Playing
pub mod Addresses
pub mod Forwarded
pub mod Peers
pub mod Connections
pub mod Switches
pub mod Tally
pub mod Live
pub mod Opened
pub mod Counts
pub mod Pairing
pub mod Gate
pub mod GateLaws
