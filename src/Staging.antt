-- ===== src/Staging.antt =====
-- inference/vllm/server.py: staging, committing and reloading weights on an inference server.
pub mod Ranges
pub mod State
pub mod Files
pub mod Requests
pub mod Uploads
pub mod Handlers
pub mod Commit
pub mod Steps
mod Runs
