-- ===== src/Delta.antt =====
-- utils/delta.py: sparse weight deltas, their index encodings and their container.
pub mod Errors
pub mod Groups
pub mod Encode
pub mod Decode
pub mod Indices
pub mod Values
pub mod Stream
