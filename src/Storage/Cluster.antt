-- ===== src/Storage/Cluster.antt =====
-- In-memory backends side by side, as main.rs makes them: backend `i` is the only one that reaches
-- store `i`. Each backend reads the clock by itself: what it reads may differ from what the others do,
-- and between two calls time passes (`at`).
pub mod Converges
pub mod DeleteRace
pub mod Deleted
pub mod LastWriter
pub mod LeftBehind
pub mod Log
pub mod MultiSync
pub mod ReadBack
pub mod Runs
use replica_t.Common.{ℕ, zero, suc, ℤ, Text, Option, none, some, List, [], ◌∷◌, set, get_elem?}
use replica_t.Crypto.{Crypto}
use replica_t.Types.Error.{Result, panic}
use replica_t.Types.Models.{DateTime}
use replica_t.Storage.Backend.{Call, StorageBackend}
use replica_t.Storage.InMemory
use replica_t.Storage.InMemory.{InMemoryStorage}

pub record Cluster : Type 0 where
  pub stores : List InMemoryStorage
  -- what each backend's next PUT reads off the clock
  pub clock : ℕ → DateTime

-- Time passes: the next readings are others.
abbrev pub at : (ℕ → DateTime) → Cluster → Cluster
at clock w = record w { clock = clock }

module _ {A : Type 0} where
  unfoldable pub put_back : ℕ → Cluster → Result A × InMemoryStorage → Result A × Cluster
  put_back i w (r, s) = (r, record w { stores = set w.stores i s })

  -- A call under the lock of store `i`.
  unfoldable pub on_store : ℕ → (DateTime → Call InMemoryStorage A) → Call Cluster A
  unfolding put_back
  on_store i call w = elim (get_elem? w.stores i) [
    | none ↦ (panic, w)
    | some s ↦ put_back i w (call (w.clock i) s)
  ]

unfoldable pub in_memory : Crypto → ℕ → StorageBackend Cluster
in_memory c i = record {
  head_bucket = on_store i (λ now. InMemory.head_bucket);
  list_objects = λ prefix max_keys. on_store i (λ now. InMemory.list_objects prefix max_keys);
  head_object = λ key. on_store i (λ now. InMemory.head_object key);
  get_object = λ key. on_store i (λ now. InMemory.get_object key);
  put_object = λ key body. on_store i (λ now. InMemory.put_object c now key body);
  delete_object = λ key. on_store i (λ now. InMemory.delete_object key);
}

-- One backend for each of `n` stores, from store `i` on.
unfoldable pub backends_from : Crypto → ℕ → ℕ → List (StorageBackend Cluster)
backends_from c i zero = []
backends_from c i (suc n) = in_memory c i ∷ backends_from c (suc i) n
