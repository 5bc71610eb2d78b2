-- ===== src/Storage.antt =====
-- storage/: the backend trait, the in-memory backend and the multi-backend replication.
pub mod Backend
pub mod Cluster
pub mod HashMap
pub mod InMemory
pub mod S3
pub mod Schedule
pub mod Simulation
pub mod MultiBackend
