-- ===== src/Upstream.antt =====
-- tools/saiai-cli/src/upstream_proxy.rs: the route that a connection takes.
pub mod Str
pub mod Ip
pub mod Glob
pub mod Network
pub mod Endpoint
pub mod Bypass
pub mod Policy
pub mod Platform
pub mod Snapshot
pub mod Tunnel
pub mod Same
pub mod Clients
mod Tests
