-- ===== src/Tests.antt =====
-- Examples: every property at concrete values, in the modules below.
pub mod Sample
pub mod Channels
pub mod Servers
pub mod Reaching
pub mod Armoring
pub mod Clients
pub mod Packets
pub mod Streams
pub mod Chunks
pub mod Guarding
pub mod Filtering
