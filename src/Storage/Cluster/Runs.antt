-- ===== src/Storage/Cluster/Runs.antt =====
-- Concurrent calls on separate stores do not interfere: the schedule does not show.
use replica_t.Common.{
  ℕ, zero, suc, ◌+◌, ◌<◌, ◌≡◌, ◌≢◌, refl, ap, ◌∙◌, true, false, ◌==◌, ==_iff, some, List, [], ◌∷◌,
  map, set, length, length-set, get_elem?, get_elem?-some, get_elem?-lt, get_elem?-set_self,
  get_elem?-set_ne, arith, Bool-cases, inl, inr, if◌then◌else◌,
}
use replica_t.Types.Error.{Result, ok, panic, map_result}
use replica_t.Types.Models.{DateTime}
use replica_t.Crypto.{Crypto}
use replica_t.Storage.Backend.{Call, StorageBackend}
use replica_t.Storage.Schedule.{
  contains, IsOnce, complete, complete_spawned, find_result, record_result,
}
use replica_t.Storage.Schedule.Agreed.{record_returned}
use replica_t.Storage.Schedule.Joined.{complete-step}
use replica_t.Storage.InMemory.{InMemoryStorage}
use replica_t.Storage.Cluster.{Cluster, in_memory, on_store, backends_from}

module _ {A : Type 0} (call : DateTime → Call InMemoryStorage A) where
  -- The same call on each of `n` stores, from store `i` on.
  unfoldable pub calls_from : ℕ → ℕ → List (Call Cluster A)
  calls_from i zero = []
  calls_from i (suc n) = on_store i call ∷ calls_from (suc i) n

  pub length-calls_from : (i n : ℕ) → length (calls_from i n) ≡ n
  unfolding calls_from
  length-calls_from i zero = refl
  length-calls_from i (suc n) = ap suc (length-calls_from (suc i) n)

  pub get_elem?-calls_from :
      (i n k : ℕ) → k < n → get_elem? (calls_from i n) k ≡ some (on_store (i + k) call)
  unfolding calls_from
  get_elem?-calls_from i zero k h = absurd (omega arith)
  get_elem?-calls_from i (suc n) zero h = ap (λ j. some (on_store j call)) (omega arith)
  get_elem?-calls_from i (suc n) (suc k) h =
      get_elem?-calls_from (suc i) n k (omega arith)
      ∙ ap (λ j. some (on_store j call)) (omega arith)

  -- One operation of each of `n` in-memory backends, from store `i` on.
  pub backend_tasks :
      (c : Crypto) (operation : StorageBackend Cluster → Call Cluster A)
      → ((i : ℕ) → operation (in_memory c i) ≡ on_store i call)
      → (i n : ℕ) → map operation (backends_from c i n) ≡ calls_from i n
  unfolding backends_from calls_from
  backend_tasks c operation each i zero = refl
  backend_tasks c operation each i (suc n) =
      let first = each i in let rest = backend_tasks c operation each (suc i) n in cc

  -- After the calls of `order`: exactly the stores that it names have been changed, each once, and
  -- each call's result is that of its store as it was at the start.
  pub record Ran (order : List ℕ) (w : Cluster) (done : List (ℕ × Result A)) (w' : Cluster)
      : Type 0 where
    pub same_clock : w'.clock ≡ w.clock
    pub same_length : length w'.stores ≡ length w.stores
    pub store_after :
        (i : ℕ) (s : InMemoryStorage)
        → get_elem? w.stores i ≡ some s
        → get_elem? w'.stores i ≡ (if contains i order then some (call (w.clock i) s).1 else some s)
    pub result_of :
        (i : ℕ) (s : InMemoryStorage)
        → get_elem? w.stores i ≡ some s
        → contains i order ≡ true
        → find_result i done ≡ some (call (w.clock i) s).0

  Ran-nil : (w : Cluster) → Ran [] w [] w
  unfolding contains
  Ran-nil w = record {
    same_clock = refl;
    same_length = refl;
    store_after = λ i s e. e;
    result_of = λ i s e c. ground (arith, c);
  }

  -- The cluster after the call on store `i`.
  abbrev after_call : ℕ → InMemoryStorage → Cluster → Cluster
  after_call i s w = record w { stores = set w.stores i (call (w.clock i) s).1 }

  module _ (i : ℕ) (s : InMemoryStorage) (order : List ℕ) (w : Cluster) (done : List (ℕ × Result A))
      (w' : Cluster) (at_i : get_elem? w.stores i ≡ some s) (once : contains i order ≡ false)
      (r : Ran order (after_call i s w) done w') where
    other_store :
        (j : ℕ) (t : InMemoryStorage)
        → (i == j) ≡ false
        → get_elem? w.stores j ≡ some t
        → get_elem? (after_call i s w).stores j ≡ some t
    other_store j t ne e =
        get_elem?-set_ne w.stores i j (call (w.clock i) s).1 (λ x. ground (arith, x, ne)) ∙ e

    own_store : get_elem? (after_call i s w).stores i ≡ some (call (w.clock i) s).1
    own_store =
        get_elem?-set_self w.stores i (call (w.clock i) s).1 (get_elem?-lt w.stores i s at_i)

    Ran-cons : Ran (i ∷ order) w ((i, (call (w.clock i) s).0) ∷ done) w'
    unfolding contains find_result
    Ran-cons = record {
      same_clock = r.same_clock;
      same_length = r.same_length ∙ length-set w.stores i (call (w.clock i) s).1;
      store_after = λ j t e. elim (Bool-cases (i == j)) [
        | inl same ↦ ground (
          arith,
          same,
          ==_iff i j,
          e,
          at_i,
          once,
          own_store,
          r.store_after i (call (w.clock i) s).1 own_store,
        )
        | inr ne ↦ ground (arith, ne, r.store_after j t (other_store j t ne e))
      ];
      result_of = λ j t e c. elim (Bool-cases (i == j)) [
        | inl same ↦ ground (arith, same, ==_iff i j, e, at_i)
        | inr ne ↦ ground (arith, ne, c, r.result_of j t (other_store j t ne e))
      ];
    }

  module _ (n : ℕ) where
    spawned_step :
        (i : ℕ) (s : InMemoryStorage) (order : List ℕ) (w : Cluster)
        → i < n
        → get_elem? w.stores i ≡ some s
        → complete_spawned (calls_from 0 n) (i ∷ order) w ≡ (
            let out = complete_spawned (calls_from 0 n) order (after_call i s w) in
            ((i, (call (w.clock i) s).0) ∷ out.0, out.1))
    unfolding complete_spawned on_store
    spawned_step i s order w b e =
        let task : get_elem? (calls_from 0 n) i ≡ some (on_store i call) =
          get_elem?-calls_from 0 n i b ∙ ap (λ j. some (on_store j call)) (omega arith) in
        rw (task, complete_spawned) (rw (e, on_store))

    -- Spawned calls on the stores, in any order that names each at most once.
    pub complete_spawned-Ran :
        (order : List ℕ) (w : Cluster)
        → IsOnce order
        → ((i : ℕ) → contains i order ≡ true → i < n)
        → length w.stores ≡ n
        → Ran order w
            (complete_spawned (calls_from 0 n) order w).0
            (complete_spawned (calls_from 0 n) order w).1
    complete_spawned-Ran [] w once bounded l = unfold complete_spawned in Ran-nil w
    complete_spawned-Ran (i ∷ order) w once bounded l =
        let b : i < n = bounded i (unfold contains in ground arith) in
        let (s, e) = get_elem?-some w.stores i (rw l b) in
        rw (spawned_step i s order w b e) (
          Ran-cons i s order w _ _ e once.0 (
            complete_spawned-Ran order (after_call i s w) once.1
              (λ j c. bounded j (unfold contains in ground (arith, c)))
              (length-set w.stores i (call (w.clock i) s).1 ∙ l)))

    -- Joined calls that do not unwind end as spawned ones do.
    pub complete-complete_spawned :
        (order : List ℕ) (w : Cluster)
        → ((now : DateTime) (s : InMemoryStorage) → (call now s).0 ≢ panic)
        → ((i : ℕ) → contains i order ≡ true → i < n)
        → length w.stores ≡ n
        → complete (calls_from 0 n) order w ≡ (
          ok (complete_spawned (calls_from 0 n) order w).0,
          (complete_spawned (calls_from 0 n) order w).1,
        )
    complete-complete_spawned [] w returns bounded l = unfold complete complete_spawned in refl
    complete-complete_spawned (i ∷ order) w returns bounded l =
        let b : i < n = bounded i (unfold contains in ground arith) in
        let (s, e) = get_elem?-some w.stores i (rw l b) in
        let task : get_elem? (calls_from 0 n) i ≡ some (on_store i call) =
          get_elem?-calls_from 0 n i b ∙ ap (λ j. some (on_store j call)) (omega arith) in
        let rest =
          complete-complete_spawned order (after_call i s w) returns
            (λ j c. bounded j (unfold contains in ground (arith, c)))
            (length-set w.stores i (call (w.clock i) s).1 ∙ l) in
        let one : on_store i call w ≡ ((call (w.clock i) s).0, after_call i s w) =
          unfold on_store in rw (e, on_store) in
        rw (spawned_step i s order w b e) (
          complete-step (calls_from 0 n) i order w (on_store i call) task
          ∙ ap (λ out. record_result i out (complete (calls_from 0 n) order)) one
          ∙ record_returned i (call (w.clock i) s).0 (after_call i s w)
              (complete (calls_from 0 n) order) (returns (w.clock i) s)
          ∙ ap (λ out. (map_result (◌∷◌ (i, (call (w.clock i) s).0)) out.0, out.1)) rest)
