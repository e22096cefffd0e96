-- ===== src/Endpoints/Sync.antt =====
-- Which weights the endpoints serve, by the requests that the pool sent them.
pub mod Leases
pub mod Calls
pub mod Staged
pub mod Operations
pub mod Shrinks
pub mod Fleet
pub mod Effects
pub mod Agree
pub mod Results
pub mod Replay
pub mod Recovers
pub mod Recovered
pub mod Commits
pub mod Active
pub mod Steps
