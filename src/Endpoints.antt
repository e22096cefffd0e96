-- ===== src/Endpoints.antt =====
-- utils/client.py: the pool of inference endpoints with its leases, and the requests that update
-- their weights.
pub mod Types
pub mod Urls
pub mod Fleet
pub mod Calls
pub mod Start
pub mod Uploads
pub mod Pool
pub mod Plan
pub mod Session
pub mod Recovery
pub mod Updates
pub mod Sync
mod Runs
pub mod Leases
pub mod Stats
pub mod Chain
pub mod Evals
pub mod Chunks
pub mod Broadcast
mod Samples
