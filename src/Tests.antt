-- ===== src/Tests.antt =====
-- Runs of the development at concrete inputs.
pub mod Data
pub mod Objects
pub mod Reads
pub mod Replicated
pub mod Configured
pub mod Started
pub mod Web
pub mod Requests
pub mod LeftBehind
pub mod Served
pub mod Buckets
pub mod Composed
pub mod Unordered
pub mod Writes
