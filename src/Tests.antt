-- ===== src/Tests.antt =====
-- The theorems at concrete inputs.
pub mod Wire
pub mod Senders
pub mod Pools
pub mod Limits
pub mod Links
pub mod Events
pub mod Pollers
pub mod Outgoing
pub mod Serving
pub mod Fabric
pub mod Echoes
pub mod Listening
pub mod Waiters
pub mod Clients
pub mod Devices
pub mod Polls
pub mod Arrivals
