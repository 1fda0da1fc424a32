-- ===== src/Core.antt =====
-- tools/saiai-core: the filesystem-backed core of the client.
pub mod Refs
pub mod Error
pub mod Credential
pub mod Config
pub mod Fs
pub mod Prog
pub mod Sys
pub mod Files
pub mod Paths
pub mod Artifacts
pub mod Env
pub mod Lease
pub mod Store
pub mod Home
pub mod Status
pub mod Load
pub mod Gateway
pub mod Transaction
pub mod Setup
pub mod Revoke
mod Runs
mod Example
mod RunTests
mod RevokeTests
mod ValueTests
