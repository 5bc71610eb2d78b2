-- ===== src/Storage/Cluster/LeftBehind.antt =====
-- What a PUT over in-memory backends leaves behind: the tasks of a broadcast that broke off, and the
-- task of an asynchronous replication.
use replica_t.Common.{
  ℕ, zero, suc, ◌+◌, ◌<◌, Text, ◌≡◌, refl, sym, ap, ◌∙◌, some, List, [], ◌∷◌, ◌++◌, map, set,
  length, length-map, get_elem?, get_elem?-some, get_elem?-set_self, enumerate_from, arith,
}
use mathlib.Core.List.{flatten}
use mathlib.Core.Option.{some-injective}
use replica_t.Crypto.{Crypto}
use replica_t.Config.Modes.{async_replication, multi_sync}
use replica_t.Types.Error.{S3Error, ok, err}
use replica_t.Storage.Backend.{Bytes, ObjectStream, StorageBackend}
use replica_t.Storage.InMemory
use replica_t.Storage.InMemory.{InMemoryStorage, calculate_etag, stored}
use replica_t.Storage.InMemory.Objects.{put_object_broken, get_object-put_object}
use replica_t.Storage.MultiBackend.Others.{at_others, indexed_others-at_others}
use replica_t.Types.Models.{DateTime}
use replica_t.Storage.Cluster.{Cluster, at, in_memory, on_store, put_back, backends_from}
use replica_t.Storage.Cluster.MultiSync.{length-backends_from}
use replica_t.Storage.Cluster.ReadBack.{set_same, get_after_put, on_store_agreed}
use replica_t.Storage.MultiBackend.Utils.Consistent.{length-enumerate_from}
use replica_t.Storage.MultiBackend.{MultiBackend, indexed_others}
use replica_t.Storage.MultiBackend.Reads.{on_primary}
use replica_t.Storage.MultiBackend.Jobs.{
  Job, replicate, put_on, read_source, failed, put_jobs, run_job, run_replicate,
}
use replica_t.Storage.MultiBackend.Writes.{put_object}

read_source-err :
    (chunks : List Bytes) (e : S3Error) (rest : ObjectStream)
    → read_source (map ok chunks ++ err e ∷ rest) ≡ (map ok chunks ++ err e ∷ [], failed e)
unfolding read_source
read_source-err [] e rest = refl
read_source-err (b ∷ chunks) e rest = rw (read_source-err chunks e rest)

get_elem?-backends_from :
    (c : Crypto) (i n k : ℕ)
    → k < n
    → get_elem? (backends_from c i n) k ≡ some (in_memory c (i + k))
unfolding backends_from
get_elem?-backends_from c i zero k h = absurd (omega arith)
get_elem?-backends_from c i (suc n) zero h = ap (λ j. some (in_memory c j)) (omega arith)
get_elem?-backends_from c i (suc n) (suc k) h =
    get_elem?-backends_from c (suc i) n k (omega arith)
    ∙ ap (λ j. some (in_memory c j)) (omega arith)

module _ {W : Type 0} where
  get_elem?-put_jobs :
      (key : Text) (sent : ObjectStream) (i : ℕ) (bs : List (StorageBackend W)) (k : ℕ) (j : Job)
      → get_elem? (put_jobs key sent (enumerate_from i bs)) k ≡ some j
      → (j ≡ put_on (i + k) key sent) × (k < length bs)
  unfolding put_jobs
  get_elem?-put_jobs key sent i [] k j h = absurd (ground (arith, h))
  get_elem?-put_jobs key sent i (b ∷ bs) zero j h =
      let e : put_on i key sent ≡ j = some-injective _ _ h in
      (rw (← e) (ap (λ p. put_on p key sent) (omega arith)), omega arith)
  get_elem?-put_jobs key sent i (b ∷ bs) (suc k) j h =
      let (e, l) = get_elem?-put_jobs key sent (suc i) bs k j h in
      (e ∙ ap (λ p. put_on p key sent) (omega arith), omega arith)

module _ (c : Crypto) (m : MultiBackend Cluster) (n : ℕ)
    (backends : m.backends ≡ backends_from c 0 n) where
  pub backend_at : (i : ℕ) → i < n → get_elem? m.backends i ≡ some (in_memory c i)
  backend_at i b =
      rw backends (get_elem?-backends_from c 0 n i b ∙ ap (λ j. some (in_memory c j)) (omega arith))

  -- A task of a broadcast is a PUT on its store.
  pub run_job-put_on :
      (key : Text) (sent : ObjectStream) (i : ℕ) (w : Cluster)
      → i < n
      → run_job m (put_on i key sent) w
        ≡ ((on_store i (λ now. InMemory.put_object c now key sent) w).1, [])
  unfolding run_job in_memory
  run_job-put_on key sent i w b = rw (backend_at i b, run_job) refl

  -- A task that is left behind by a body that breaks off changes nothing.
  put_on_broken :
      (key : Text) (chunks : List Bytes) (e : S3Error) (k : ℕ) (w : Cluster)
      → length w.stores ≡ n
      → k < n
      → run_job m (put_on k key (map ok chunks ++ err e ∷ [])) w ≡ (w, [])
  unfolding on_store put_back
  put_on_broken key chunks e k w l b =
      let sent = map ok chunks ++ err e ∷ [] in
      let (s, at_k) = get_elem?-some w.stores k (omega (arith, l)) in
      let kept : on_store k (λ now. InMemory.put_object c now key sent) w ≡ (err e, w) =
        rw (at_k, on_store)
          (rw (put_object_broken c (w.clock k) key chunks e [] s)
            (rw (set_same w.stores k s at_k))) in
      run_job-put_on key sent k w b ∙ ap (λ out. (out.1, [])) kept

  -- A PUT in MULTI_SYNC whose body breaks off over `n` in-memory backends returns the error of the
  -- body and changes nothing yet; it leaves one task behind for each backend, and each of them,
  -- whenever it runs, changes nothing either.
  pub put_object_multi_sync_broken :
      (reason key : Text) (chunks : List Bytes) (e : S3Error) (rest : ObjectStream) (order : List ℕ)
      (w : Cluster)
      → m.write_mode ≡ multi_sync
      → (jobs : List Job) × (put_object reason m order key (map ok chunks ++ err e ∷ rest) w
          ≡ (err e, w, jobs))
        × (length jobs ≡ n)
        × ((k : ℕ) (j : Job) (w' : Cluster)
            → get_elem? jobs k ≡ some j
            → length w'.stores ≡ n
            → run_job m j w' ≡ (w', []))
  unfolding put_object put_jobs
  put_object_multi_sync_broken reason key chunks e rest order w mode =
      let sent = map ok chunks ++ err e ∷ [] in
      let bs = backends_from c 0 n in
      let count = length-backends_from c 0 n in
      (
        put_jobs key sent (enumerate_from 0 bs),
        rw mode (rw backends (rw (read_source-err chunks e rest))),
        length-map _ (enumerate_from 0 bs) ∙ length-enumerate_from 0 bs ∙ count,
        λ k j w' h l.
            let (same, b) = get_elem?-put_jobs key sent 0 bs k j h in
            let same' : j ≡ put_on k key sent = same ∙ ap (λ p. put_on p key sent) (omega arith) in
            rw same' (put_on_broken key chunks e k w' l (omega (arith, count))),
      )

  abbrev pub after_put : Text → List Bytes → ℕ → Cluster → InMemoryStorage → Cluster
  after_put key chunks i w s = record w {
    stores = set w.stores i (InMemory.put_object c (w.clock i) key (map ok chunks) s).1;
  }

  pub on_store_put :
      (key : Text) (chunks : List Bytes) (i : ℕ) (w : Cluster) (s : InMemoryStorage)
      → get_elem? w.stores i ≡ some s
      → on_store i (λ now. InMemory.put_object c now key (map ok chunks)) w
        ≡ (ok (calculate_etag c (flatten chunks)), after_put key chunks i w s)
  unfolding on_store put_back
  on_store_put key chunks i w s at_i =
      rw (at_i, on_store)
        (ap (λ r. (r, after_put key chunks i w s))
          (get_object-put_object c (w.clock i) key chunks key s).0)

  -- And at any later time.
  on_store_get :
      (key : Text) (chunks : List Bytes) (i : ℕ) (w : Cluster) (s : InMemoryStorage)
      (later : ℕ → DateTime)
      → i < length w.stores
      → on_store i (λ now. InMemory.get_object key) (at later (after_put key chunks i w s)) ≡ (
        ok (ok (flatten chunks) ∷ [], (stored c (w.clock i) key (flatten chunks)).metadata),
        at later (after_put key chunks i w s),
      )
  on_store_get key chunks i w s later b =
      let s' = (InMemory.put_object c (w.clock i) key (map ok chunks) s).1 in
      on_store_agreed (λ now. InMemory.get_object key) _ (at later (after_put key chunks i w s)) i
        s' (get_elem?-set_self w.stores i s' b) (get_after_put c [] key chunks (w.clock i) s)

  -- An asynchronous PUT of a whole body over `n` in-memory backends, more than one, returns the
  -- body's ETag and stores the object in the primary alone. The one task that it leaves behind, if it
  -- runs next, at whatever later time, reads the object back from the primary, and leaves a PUT of
  -- the body for every backend below `n` but the primary, in order.
  pub put_object_async_replication :
      (reason key : Text) (chunks : List Bytes) (order : List ℕ) (w : Cluster)
      → m.write_mode ≡ async_replication
      → m.primary_index < n
      → 1 < n
      → length w.stores ≡ n
      → (w' : Cluster) × (put_object reason m order key (map ok chunks) w
          ≡ (ok (calculate_etag c (flatten chunks)), w', replicate key ∷ []))
        × (w'
            ≡ (on_store m.primary_index (λ now. InMemory.put_object c now key (map ok chunks)) w).1)
        × ((later : ℕ → DateTime)
            → run_job m (replicate key) (at later w') ≡ (
              at later w',
              at_others (λ j. put_on j key (ok (flatten chunks) ∷ [])) m.primary_index n,
            ))
  unfolding put_object run_job in_memory on_primary put_jobs
  put_object_async_replication reason key chunks order w mode p more l =
      let i = m.primary_index in
      let (s, at_i) = get_elem?-some w.stores i (omega (arith, l)) in
      let w' = after_put key chunks i w s in
      (
        w',
        rw mode (
            rw (backend_at i p, on_primary)
              (rw (on_store_put key chunks i w s at_i)
                (rw (backends, length-backends_from c 0 n) (ground (arith, more))))),
        ap (λ out. out.1) (sym (on_store_put key chunks i w s at_i)),
        λ later.
            rw (backend_at i p, run_job, run_replicate)
              (rw (on_store_get key chunks i w s later (omega (arith, l))) (
                ap (λ out. (out.1, put_jobs key (ok (flatten chunks) ∷ []) (indexed_others m)))
                  (on_store_get key chunks i w s later (omega (arith, l)))
                ∙ ap (λ jobs. (at later w', jobs))
                    (indexed_others-at_others m (λ j. put_on j key (ok (flatten chunks) ∷ [])) n
                      (rw backends (length-backends_from c 0 n)) p))),
      )
