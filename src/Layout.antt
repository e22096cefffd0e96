-- ===== src/Layout.antt =====
-- inference/vllm/worker/weight_layout.py: logical sparse updates mapped to the local shard.
pub mod Errors
pub mod Project
pub mod Adapter
mod Ranks
mod Runs
