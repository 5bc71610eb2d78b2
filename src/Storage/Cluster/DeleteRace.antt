-- ===== src/Storage/Cluster/DeleteRace.antt =====
-- An asynchronous PUT and a DELETE that follows it over in-memory backends: nothing orders the tasks
-- that they leave behind.
use replica_t.Common.{
  ℕ, ◌<◌, ◌==◌, ==_iff, Text, ◌≡◌, refl, ap, ◌∙◌, subst, false, some, List, [], ◌∷◌, map, length,
  get_elem?, get_elem?-some, get_elem?-map, All, arith, Bool-cases, inl, inr, leb, if◌then◌else◌,
}
use mathlib.Core.List.{flatten}
use replica_t.Crypto.{Crypto}
use replica_t.Config.Modes.{async_replication, best_effort}
use replica_t.Types.Error.{ok, err, no_such_key}
use replica_t.Types.Models.{DateTime, ObjectMetadata}
use replica_t.Storage.Backend.{Call, ObjectStream, Bytes}
use replica_t.Storage.InMemory
use replica_t.Storage.InMemory.{InMemoryStorage, calculate_etag, stored}
use replica_t.Storage.InMemory.Objects.{get_object_cases}
use replica_t.Storage.Cluster.{Cluster, at, in_memory, on_store, put_back, backends_from}
use replica_t.Storage.Cluster.LeftBehind.{backend_at, put_object_async_replication}
use replica_t.Storage.Cluster.MultiSync.{length-backends_from}
use replica_t.Storage.Cluster.LastWriter.{
  IsTaskOf, last_writer, object, get_after_delete, get-replay, last_writer-primary, All-IsOnBackend,
}
use replica_t.Storage.Cluster.Log.{
  Timed, Leads, at_store, on_store-Leads, replay, run_timed, run_timed-Leads,
}
use replica_t.Storage.MultiBackend.{MultiBackend, indexed_others}
use replica_t.Storage.MultiBackend.Others.{at_others, indexed_others-at_others}
use replica_t.Storage.Cluster.ReadBack.{on_store_agreed}
use replica_t.Storage.MultiBackend.Reads.{is_no_such_key, on_primary, get_object}
use replica_t.Storage.MultiBackend.Utils.{on_result, race, race_all_backends}
use replica_t.Storage.MultiBackend.Jobs.{replicate, put_on, delete_on, run_job}
use replica_t.Storage.MultiBackend.Writes.{spawn_on_ok, put_object}
use replica_t.Storage.MultiBackend.Deletes.{delete_object}

module _ (c : Crypto) (m : MultiBackend Cluster) (n : ℕ)
    (backends : m.backends ≡ backends_from c 0 n) (key : Text) where
  -- In BEST_EFFORT the backend that completes first decides.
  race_first :
      (j : ℕ) (rest : List ℕ) (w : Cluster) (s : InMemoryStorage)
      → m.read_mode ≡ best_effort
      → j < n
      → get_elem? w.stores j ≡ some s
      → (get_object m (j ∷ rest) key w).0 ≡ (InMemory.get_object key s).0
  unfolding get_object race_all_backends race is_no_such_key on_result in_memory
  race_first j rest w s mode b at_j =
      let t =
        get_elem?-map (λ x. x.get_object key) m.backends j (in_memory c j)
          (backend_at c m n backends j b) in
      let call : DateTime → Call InMemoryStorage (ObjectStream × ObjectMetadata) =
        λ now. InMemory.get_object key in
      elim (get_object_cases key s) [
        | inl e ↦
            rw mode (rw (t, race) (rw (on_store_agreed call _ w j s at_j e, on_result) (rw e refl)))
        | inr (a, e) ↦
            rw mode (rw (t, race) (rw (on_store_agreed call _ w j s at_j e, on_result) (rw e refl)))
      ]

  delete_object_spawns :
      (order : List ℕ) (w : Cluster)
      → m.write_mode ≡ async_replication
      → m.primary_index < n
      → 1 < n
      → length w.stores ≡ n
      → delete_object m order key w ≡ (
        ok tt,
        (on_store m.primary_index (λ now. InMemory.delete_object key) w).1,
        map (λ b. delete_on b.0 key) (indexed_others m),
      )
  unfolding delete_object spawn_on_ok on_primary in_memory on_store put_back InMemory.delete_object
  delete_object_spawns order w mode p more l =
      let (s, at_p) = get_elem?-some w.stores m.primary_index (omega (arith, l)) in
      let same : length m.backends ≡ n = rw backends (length-backends_from c 0 n) in
      let several : leb (length m.backends) 1 ≡ false = ground arith in
      rw mode (
        rw (backend_at c m n backends m.primary_index p, on_primary)
          (rw (at_p, on_store) (rw several refl)))

  abbrev deleted : Cluster → Cluster
  deleted w = (on_store m.primary_index (λ now. InMemory.delete_object key) w).1

  -- An asynchronous DELETE removes the object from the primary, and leaves a task for each other
  -- backend.
  delete_object_async :
      (order : List ℕ) (w : Cluster)
      → m.write_mode ≡ async_replication
      → m.primary_index < n
      → 1 < n
      → length w.stores ≡ n
      → delete_object m order key w
        ≡ (ok tt, deleted w, at_others (λ j. delete_on j key) m.primary_index n)
  delete_object_async order w mode p more l =
      delete_object_spawns order w mode p more l
      ∙ ap (λ jobs. (ok tt, deleted w, jobs))
          (indexed_others-at_others m (λ j. delete_on j key) n
            (rw backends (length-backends_from c 0 n)) p)

  module _ (body : Bytes) (p : ℕ) (j : ℕ) (jobs : List Timed)
      (tasks : All (λ j. IsTaskOf n p key body j.1) jobs) (s : InMemoryStorage) where
    -- Store `j` after the PUT and the DELETE on the primary, and then the tasks.
    get_at_end :
        (f : InMemoryStorage → InMemoryStorage)
        → (InMemory.get_object key (
            replay c jobs j
              (at_store p (λ t. (InMemory.delete_object key t).1) j (at_store p f j s)))).0
          ≡ (if p == j
              then err no_such_key
              else last_writer (object c n p key body) j jobs (InMemory.get_object key s).0)
    get_at_end f =
        let found = object c n p key body in
        get-replay c n p key body jobs j _ tasks ∙ elim (Bool-cases (p == j)) [
          | inl e ↦ rw e (
              ap (last_writer found j jobs) (get_after_delete c n p key body (f s))
              ∙ subst (λ i. last_writer found i jobs (err no_such_key) ≡ err no_such_key)
                  ((==_iff p j).0 e)
                  (last_writer-primary c n p key body jobs (err no_such_key) tasks))
          | inr e ↦ rw e refl
        ]

  -- An asynchronous PUT of a whole body over `n` in-memory backends, more than one, whose replication
  -- task runs, and a DELETE after that, both succeed and leave a PUT and a DELETE for every backend
  -- below `n` but the primary. These may run in any order, each at a time of its own. After any of
  -- them, a BEST_EFFORT GET ends as the backend that completes first says: with NoSuchKey if this is the primary; with
  -- the deleted object if the last task that ran on this backend is its PUT; with NoSuchKey if this
  -- is its DELETE; and as at the start if none has run there.
  pub async_delete_race :
      (reason : Text) (chunks : List Bytes) (order rest : List ℕ) (j : ℕ) (jobs : List Timed)
      (later later' : ℕ → DateTime) (w : Cluster) (s : InMemoryStorage)
      → m.write_mode ≡ async_replication
      → m.read_mode ≡ best_effort
      → m.primary_index < n
      → 1 < n
      → length w.stores ≡ n
      → j < n
      → get_elem? w.stores j ≡ some s
      → All (λ j. IsTaskOf n m.primary_index key (flatten chunks) j.1) jobs
      → (w' : Cluster) × (w'' : Cluster) × (put_object reason m order key (map ok chunks) w
          ≡ (ok (calculate_etag c (flatten chunks)), w', replicate key ∷ []))
        × (run_job m (replicate key) (at later w') ≡ (
          at later w',
          at_others (λ j. put_on j key (ok (flatten chunks) ∷ [])) m.primary_index n,
        ))
        × (delete_object m order key (at later' w')
            ≡ (ok tt, w'', at_others (λ j. delete_on j key) m.primary_index n))
        × ((get_object m (j ∷ rest) key (run_timed m jobs w'')).0 ≡ (
            if m.primary_index == j
            then err no_such_key
            else last_writer
                (λ now. ok (ok (flatten chunks) ∷ [], (stored c now key (flatten chunks)).metadata))
                j
                jobs
                (InMemory.get_object key s).0))
  async_delete_race reason chunks order rest j jobs later later' w s mode read p more l b at_j
        tasks =
      let i = m.primary_index in
      let body = flatten chunks in
      let put_call : DateTime → Call InMemoryStorage Text =
        λ now. InMemory.put_object c now key (map ok chunks) in
      let delete_call : DateTime → Call InMemoryStorage (Unit {0}) =
        λ now. InMemory.delete_object key in
      let (w', put, e, replicated) =
        put_object_async_replication c m n backends reason key chunks order w mode p more l in
      let first : Leads (at_store i (λ t. (put_call (w.clock i) t).1)) w w' =
        rw e (on_store-Leads i put_call w (rw l p)) in
      let l' : length w'.stores ≡ n = first.same_length ∙ l in
      let second = on_store-Leads i delete_call (at later' w') (rw l' p) in
      let third =
        run_timed-Leads c m n backends jobs (deleted (at later' w'))
          (All-IsOnBackend c n i key body jobs tasks) (second.same_length ∙ l') in
      (
        w',
        deleted (at later' w'),
        put,
        replicated later,
        delete_object_async order (at later' w') mode p more l',
        race_first j rest (run_timed m jobs (deleted (at later' w'))) _ read b
              (third.store_after j _ (second.store_after j _ (first.store_after j s at_j)))
            ∙ get_at_end body i j jobs tasks s (λ t. (put_call (w.clock i) t).1),
      )
