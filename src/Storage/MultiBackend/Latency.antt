-- ===== src/Storage/MultiBackend/Latency.antt =====
-- storage/multi_backend/mod.rs: `determine_primary_by_latency`. The world holds the clock:
-- `elapsed w w'` is the time from the world `w` to the world `w'`, a `Duration` in nanoseconds.
pub mod Least
use replica_t.Common.{
  ℕ, zero, suc, ◌/◌, leb, Text, Bool, true, false, Option, none, some, List, [], ◌∷◌, map, length,
  get_elem?, sort_by, enumerate_from,
}
use replica_t.Types.Error.{Result, ok, err, panic, map_result, ◌>>=◌}
use replica_t.Storage.Backend.{Call, StorageBackend}

unfoldable pub benchmark_requests : ℕ
benchmark_requests = 10

-- `latencies[latencies.len() / 2]` of the sorted latencies, where there are any.
unfoldable pub p50 : List ℕ → Option ℕ
p50 [] = none
p50 (l ∷ latencies) = get_elem? (sort_by leb (l ∷ latencies)) (length (l ∷ latencies) / 2)

-- The comparison of two medians, as "not greater": a backend without successful requests comes last.
unfoldable pub latency_le : Option ℕ → Option ℕ → Bool
latency_le (some a) (some b) = leb a b
latency_le (some a) none = true
latency_le none (some b) = false
latency_le none none = true

-- The order of `sort_by`.
unfoldable pub p50_le : ℕ × Option ℕ → ℕ × Option ℕ → Bool
unfolding latency_le
p50_le a b = latency_le a.1 b.1

-- `backend_p50s[0]`, which panics without backends.
unfoldable pub choose : List (ℕ × Option ℕ) → Result ℕ
choose [] = panic
choose ((best_index, some best_p50) ∷ p50s) = ok best_index
choose ((best_index, none) ∷ p50s) = ok 0

unfoldable pub backend_p50s : List (ℕ × List ℕ) → List (ℕ × Option ℕ)
unfolding p50
backend_p50s = map (λ b. (b.0, p50 b.1))

module _ {W : Type 0} where
  -- After one request: a success gives its latency, and an error is only logged.
  unfoldable pub timed : ℕ → Result (Unit {0}) → Call W (List ℕ) → Call W (List ℕ)
  timed duration (ok _) rest w =
      let (latencies, w') = rest w in (map_result (◌∷◌ duration) latencies, w')
  timed duration (err e) rest w = rest w
  timed duration panic rest w = (panic, w)

  -- `backend_latencies.push((idx, latencies))`, and the rest of the loop.
  unfoldable pub push_latencies :
      ℕ → Result (List ℕ) → Call W (List (ℕ × List ℕ)) → Call W (List (ℕ × List ℕ))
  push_latencies idx (ok latencies) rest w =
      let (others, w') = rest w in (map_result (◌∷◌ (idx, latencies)) others, w')
  push_latencies idx (err e) rest w = (err e, w)
  push_latencies idx panic rest w = (panic, w)

module _ {W : Type 0} (elapsed : W → W → ℕ) where
  -- The latencies of `n` requests.
  unfoldable pub benchmark : ℕ → StorageBackend W → Call W (List ℕ)
  unfolding timed
  benchmark zero backend w = (ok [], w)
  benchmark (suc n) backend w =
      let (result, w') = backend.head_bucket w in
      timed (elapsed w w') result (benchmark n backend) w'

  -- The loop over the backends; `backend_names[idx]` panics where there is no such name.
  unfoldable pub benchmark_all :
      List Text → List (ℕ × StorageBackend W) → Call W (List (ℕ × List ℕ))
  unfolding benchmark benchmark_requests push_latencies
  benchmark_all backend_names [] w = (ok [], w)
  benchmark_all backend_names ((idx, backend) ∷ backends) w = elim (get_elem? backend_names idx) [
    | none ↦ (panic, w)
    | some name ↦
        let (latencies, w') = benchmark benchmark_requests backend w in
        push_latencies idx latencies (benchmark_all backend_names backends) w'
  ]

  unfoldable pub determine_primary_by_latency : List (StorageBackend W) → List Text → Call W ℕ
  unfolding benchmark_all backend_p50s p50_le choose
  determine_primary_by_latency backends backend_names w =
      let (latencies, w') = benchmark_all backend_names (enumerate_from 0 backends) w in
      (latencies >>= λ ls. choose (sort_by p50_le (backend_p50s ls)), w')
