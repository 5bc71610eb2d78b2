-- ===== src/Tests/Started.antt =====
-- Runs of the start-up: two in-memory backends, which a configuration names.
use replica_t.Common.{
  ℕ, zero, suc, ◌-◌, ◌≡◌, refl, Text, none, some, List, [], ◌∷◌, get_elem?, arith,
}
use replica_t.Config.File.{BackendConfig, MemoryBackendConfig}
use replica_t.Types.Error.{ok}
use replica_t.Storage.InMemory.{InMemoryStorage}
use replica_t.Storage.Backend.{StorageBackend}
use replica_t.Storage.MultiBackend.{MultiBackend}
use replica_t.Storage.MultiBackend.Latency.Least.{Calm}
use replica_t.Startup.{Started, replicated, init_backends, start}
use replica_t.Startup.Primary.{IsReady, IsBuiltFrom, start-IsReady, start_named}
use replica_t.Tests.Data.{metadata, answering}
use replica_t.Tests.Configured.{config, config_is_valid}

abbrev hold : MemoryBackendConfig → InMemoryStorage → StorageBackend ℕ
hold c storage = answering (ok (metadata c.name))

-- The world counts the calls; a call takes as long as it counts.
abbrev elapsed : ℕ → ℕ → ℕ
elapsed w w' = w' - w

abbrev two_backends : List (StorageBackend ℕ)
two_backends = (init_backends (λ c. none) hold config.backends).0

abbrev their_names : List Text
their_names = (init_backends (λ c. none) hold config.backends).1

two_backends-Calm : Calm two_backends
unfolding init_backends
two_backends-Calm zero b h w e = ground (arith, h, e)
two_backends-Calm (suc zero) b h w e = ground (arith, h, e)
two_backends-Calm (suc (suc i)) b h w e = ground (arith, h)

start-IsReady_example :
    (s : Started ℕ) × ((start elapsed (λ c. none) hold config 0).0 ≡ ok s)
    × IsReady config two_backends s
start-IsReady_example = start-IsReady (λ c. none) hold elapsed config 0 two_backends-Calm

start_named_example :
    (m : MultiBackend ℕ) × (start elapsed (λ c. none) hold config 0 ≡ (ok (replicated m), 0))
    × (m.backends ≡ two_backends)
    × (b : StorageBackend ℕ) × (k : ℕ) × (backend_config : BackendConfig) × (get_elem? m.backends
          m.primary_index
        ≡ some b)
    × (get_elem? config.backends k ≡ some backend_config)
    × IsBuiltFrom (λ c. none) hold (98 ∷ []) b backend_config
unfolding init_backends
start_named_example =
    start_named (λ c. none) hold elapsed config (98 ∷ []) 1 0 config_is_valid refl (omega arith)
      refl
