-- ===== src/Storage/MultiBackend.antt =====
-- storage/multi_backend/mod.rs: the replicating storage and its backends.
pub mod Others
pub mod Deletes
pub mod Jobs
pub mod Latency
pub mod ListObjects
pub mod Reads
pub mod Service
pub mod Utils
pub mod Writes
use replica_t.Config.Modes.{ReadMode, WriteMode}
use replica_t.Common.{ℕ, ◌==◌, Option, List, [], ◌∷◌, map, get_elem?, enumerate_from, if◌then◌else◌}
use replica_t.Storage.Backend.{StorageBackend}

pub record MultiBackend (W : Type 0) : Type 0 where
  pub backends : List (StorageBackend W)
  pub primary_index : ℕ
  pub read_mode : ReadMode
  pub write_mode : WriteMode

-- `.filter(|(idx, _)| *idx != primary_idx)`
unfoldable pub without_index {ℓ} : {A : Type ℓ} → ℕ → List (ℕ × A) → List (ℕ × A)
without_index p [] = []
without_index p ((i, a) ∷ l) =
    let rest = without_index p l in if i == p then rest else (i, a) ∷ rest

module _ {W : Type 0} where
  unfoldable pub new : List (StorageBackend W) → ℕ → ReadMode → WriteMode → MultiBackend W
  new backends primary_index read_mode write_mode = record {
    backends = backends;
    primary_index = primary_index;
    read_mode = read_mode;
    write_mode = write_mode;
  }

  -- `none` where the index is out of bounds, at which the source panics.
  unfoldable pub primary : MultiBackend W → Option (StorageBackend W)
  primary m = get_elem? m.backends m.primary_index

  -- The backends but the primary one, with their indices.
  unfoldable pub indexed_others : MultiBackend W → List (ℕ × StorageBackend W)
  unfolding without_index
  indexed_others m = without_index m.primary_index (enumerate_from 0 m.backends)

  unfoldable pub other_backends : MultiBackend W → List (StorageBackend W)
  unfolding indexed_others
  other_backends m = map (λ b. b.1) (indexed_others m)
