-- ===== src/Storage/Cluster/Log.antt =====
-- Tasks over in-memory backends: each store is what its own tasks make of it, in their order.
use replica_t.Common.{
  ℕ, ◌<◌, ◌==◌, Text, ◌≡◌, refl, ◌∙◌, some, List, [], ◌∷◌, length, length-set, get_elem?,
  get_elem?-some, get_elem?-set_self, get_elem?-set_ne, All, arith, Bool-cases, inl, inr, ==_iff,
  if◌then◌else◌,
}
use replica_t.Crypto.{Crypto}
use replica_t.Types.Models.{DateTime}
use replica_t.Storage.Backend.{Call}
use replica_t.Storage.InMemory
use replica_t.Storage.InMemory.{InMemoryStorage}
use replica_t.Storage.Cluster.{Cluster, at, in_memory, on_store, put_back, backends_from}
use replica_t.Storage.Cluster.LeftBehind.{run_job-put_on, backend_at}
use replica_t.Storage.MultiBackend.{MultiBackend}
use replica_t.Storage.MultiBackend.Jobs.{Job, replicate, put_on, delete_on, run_job}

-- The cluster after a change of each store.
pub record Leads (f : ℕ → InMemoryStorage → InMemoryStorage) (w w' : Cluster) : Type 0 where
  pub same_length : length w'.stores ≡ length w.stores
  pub store_after :
      (i : ℕ) (s : InMemoryStorage)
      → get_elem? w.stores i ≡ some s
      → get_elem? w'.stores i ≡ some (f i s)

-- A change of one store.
abbrev pub at_store :
    ℕ → (InMemoryStorage → InMemoryStorage) → ℕ → InMemoryStorage → InMemoryStorage
at_store j f i s = if j == i then f s else s

pub on_store-Leads :
    {A : Type 0} (j : ℕ) (call : DateTime → Call InMemoryStorage A) (w : Cluster)
    → j < length w.stores
    → Leads (at_store j (λ s. (call (w.clock j) s).1)) w (on_store j call w).1
unfolding on_store put_back
on_store-Leads j call w b =
    let (old, e) = get_elem?-some w.stores j b in
    let new = (call (w.clock j) old).1 in
    rw (e, on_store)
      record {
        same_length = length-set w.stores j new;
        store_after = λ i s at_i. elim (Bool-cases (j == i)) [
          | inl same ↦
              ground (arith, same, ==_iff j i, at_i, e, get_elem?-set_self w.stores j new b)
          | inr other ↦ ground (
            arith,
            other,
            at_i,
            get_elem?-set_ne w.stores j i new (λ x. ground (arith, x, other)),
          )
        ];
      }

pub Leads-then :
    (f g : ℕ → InMemoryStorage → InMemoryStorage) (w w' w'' : Cluster)
    → Leads f w w'
    → Leads g w' w''
    → Leads (λ i s. g i (f i s)) w w''
Leads-then f g w w' w'' h k = record {
  same_length = k.same_length ∙ h.same_length;
  store_after = λ i s e. k.store_after i (f i s) (h.store_after i s e);
}

-- A task, and what the backends read off the clock when it runs.
abbrev pub Timed : Type 0
Timed = (ℕ → DateTime) × Job

-- Tasks that leave no others behind, run in the order of the list; time passes before each.
unfoldable pub run_timed : MultiBackend Cluster → List Timed → Cluster → Cluster
unfolding run_job
run_timed m [] w = w
run_timed m ((clock, job) ∷ jobs) w = run_timed m jobs (run_job m job (at clock w)).0

-- What a task on a backend does to store `i`.
unfoldable pub applied : Crypto → (ℕ → DateTime) → Job → ℕ → InMemoryStorage → InMemoryStorage
applied c now (replicate key) i s = s
applied c now (put_on j key sent) i s =
    at_store j (λ t. (InMemory.put_object c (now j) key sent t).1) i s
applied c now (delete_on j key) i s = at_store j (λ t. (InMemory.delete_object key t).1) i s

unfoldable pub replay : Crypto → List Timed → ℕ → InMemoryStorage → InMemoryStorage
unfolding applied
replay c [] i s = s
replay c ((now, job) ∷ jobs) i s = replay c jobs i (applied c now job i s)

-- A task on one of `n` backends.
abbrev pub IsOnBackend : ℕ → Job → Type 0
IsOnBackend n (replicate key) = ⊥
IsOnBackend n (put_on j key sent) = j < n
IsOnBackend n (delete_on j key) = j < n

module _ (c : Crypto) (m : MultiBackend Cluster) (n : ℕ)
    (backends : m.backends ≡ backends_from c 0 n) where
  run_job-delete_on :
      (key : Text) (i : ℕ) (w : Cluster)
      → i < n
      → run_job m (delete_on i key) w ≡ ((on_store i (λ t. InMemory.delete_object key) w).1, [])
  unfolding run_job in_memory
  run_job-delete_on key i w b = rw (backend_at c m n backends i b, run_job) refl

  -- The passing of time changes no store.
  from_later :
      {f : ℕ → InMemoryStorage → InMemoryStorage} {now : ℕ → DateTime} {w w' : Cluster}
      → Leads f (at now w) w'
      → Leads f w w'
  from_later h = record { same_length = h.same_length; store_after = h.store_after }

  run_job-Leads :
      (now : ℕ → DateTime) (job : Job) (w : Cluster)
      → IsOnBackend n job
      → length w.stores ≡ n
      → Leads (applied c now job) w (run_job m job (at now w)).0
  unfolding applied
  run_job-Leads now (replicate key) w h l = absurd h
  run_job-Leads now (put_on j key sent) w h l =
      rw (run_job-put_on c m n backends key sent j (at now w) h) (
        from_later
          (on_store-Leads j (λ x. InMemory.put_object c x key sent) (at now w) (omega arith)))
  run_job-Leads now (delete_on j key) w h l =
      rw (run_job-delete_on key j (at now w) h)
        (from_later (on_store-Leads j (λ x. InMemory.delete_object key) (at now w) (omega arith)))

  -- Tasks on backends, run in the order of the list.
  pub run_timed-Leads :
      (jobs : List Timed) (w : Cluster)
      → All (λ j. IsOnBackend n j.1) jobs
      → length w.stores ≡ n
      → Leads (replay c jobs) w (run_timed m jobs w)
  unfolding run_timed replay
  run_timed-Leads [] w h l = record { same_length = refl; store_after = λ i s e. e }
  run_timed-Leads ((now, job) ∷ jobs) w h l =
      let first = run_job-Leads now job w h.0 l in
      Leads-then (applied c now job) (replay c jobs) w (run_job m job (at now w)).0 _ first
        (run_timed-Leads jobs (run_job m job (at now w)).0 h.1 (first.same_length ∙ l))
