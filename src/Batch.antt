-- ===== src/Batch.antt =====
-- trainer/batch.py: samples to micro batches, and micro batches to the ranks of the trainer.
pub mod Types
pub mod Prepare
pub mod Pack
pub mod Pad
pub mod Distribute
mod Runs
