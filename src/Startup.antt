-- ===== src/Startup.antt =====
-- main.rs: the storage that the server is started with.
pub mod Main
pub mod Primary
pub mod Serve
use replica_t.Common.{ℕ, suc, Text, text_eq, Option, none, some, List, [], ◌∷◌, if◌then◌else◌}
use replica_t.Config.File.{
  S3BackendConfig, MemoryBackendConfig, BackendConfig, s3, memory, Config, is_set,
}
use replica_t.Types.Error.{Result, ok, err, panic, map_result}
use replica_t.Storage.InMemory
use replica_t.Storage.InMemory.{InMemoryStorage}
use replica_t.Storage.Backend.{Call, StorageBackend}
use replica_t.Storage.MultiBackend.{MultiBackend, new}
use replica_t.Storage.MultiBackend.Utils.{unwrap_or}
use replica_t.Storage.MultiBackend.Latency.{determine_primary_by_latency}

-- `.iter().position(|name| name == primary_name)`
unfoldable pub position : Text → List Text → Option ℕ
position n [] = none
position n (m ∷ names) =
    let later : Option ℕ = elim (position n names) [ none ↦ none | some i ↦ some (suc i) ] in
    if text_eq m n then some 0 else later

-- The primary of the configuration, or the first backend: also where none bears the name, since it
-- has failed to initialise.
unfoldable pub named_index : Option Text → List Text → ℕ
unfolding position
named_index none names = 0
named_index (some n) names = unwrap_or (position n names) 0

-- What `main` makes of the backends: it exits without any, and replicates over more than one.
pub data Started (W : Type 0) : Type 0 where
  exits : Started W
  single : StorageBackend W → Started W
  replicated : MultiBackend W → Started W

-- `s3_new` is `S3Backend::new`, `none` where it fails; `hold` is how the world holds a new in-memory
-- storage, by its configuration.
module _ {W : Type 0} (s3_new : S3BackendConfig → Option (StorageBackend W))
    (hold : MemoryBackendConfig → InMemoryStorage → StorageBackend W) where
  -- `backends` and `backend_names` after the loop: a backend that fails is only logged.
  unfoldable pub init_backends : List BackendConfig → List (StorageBackend W) × List Text
  init_backends [] = ([], [])
  init_backends (s3 c ∷ configs) =
      let (backends, names) = init_backends configs in
      elim (s3_new c) [ none ↦ (backends, names) | some b ↦ (b ∷ backends, c.name ∷ names) ]
  init_backends (memory c ∷ configs) =
      let (backends, names) = init_backends configs in
      (hold c InMemory.new ∷ backends, c.name ∷ names)

module _ {W : Type 0} (elapsed : W → W → ℕ) where
  unfoldable pub primary_index : Config → List (StorageBackend W) → List Text → Call W ℕ
  unfolding named_index is_set
  primary_index config backends names w =
      let measured = determine_primary_by_latency elapsed backends names w in
      if is_set config.use_latency_based_primary_backend
      then measured
      else (ok (named_index config.primary_backend_name names), w)

  unfoldable pub create_storage : Config → List (StorageBackend W) → List Text → Call W (Started W)
  unfolding primary_index
  create_storage config [] names w = (ok exits, w)
  create_storage config (b ∷ []) names w = (ok (single b), w)
  create_storage config (b ∷ b' ∷ backends) names w =
      let (index, w') = primary_index config (b ∷ b' ∷ backends) names w in
      (
        map_result (λ i. replicated (new (b ∷ b' ∷ backends) i config.read_mode config.write_mode))
            index,
        w',
      )

  unfoldable pub start :
      (S3BackendConfig → Option (StorageBackend W))
      → (MemoryBackendConfig → InMemoryStorage → StorageBackend W)
      → Config
      → Call W (Started W)
  unfolding init_backends create_storage
  start s3_new hold config =
      let (backends, names) = init_backends s3_new hold config.backends in
      create_storage config backends names
