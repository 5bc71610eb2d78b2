-- ===== src/Config/Modes.antt =====
-- config.rs: how reads and writes use the backends.
pub data ReadMode : Type 0 where
  primary_only primary_fallback best_effort all_consistent : ReadMode

pub data WriteMode : Type 0 where
  async_replication multi_sync : WriteMode
