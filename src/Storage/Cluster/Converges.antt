-- ===== src/Storage/Cluster/Converges.antt =====
-- Asynchronous replication over in-memory backends, run to its end.
use replica_t.Common.{
  ℕ, zero, suc, ◌<◌, ◌==◌, ==_iff, Text, ◌≡◌, refl, ap, ◌∙◌, subst, true, false, some, List, [],
  ◌∷◌, map, length, get_elem?, get_elem?-some, All, All-map, arith, Bool-cases, inl, inr,
  if◌then◌else◌,
}
use mathlib.Core.List.{flatten}
use mathlib.Core.Option.{some-injective}
use replica_t.Crypto.{Crypto}
use replica_t.Config.Modes.{async_replication}
use replica_t.Types.Error.{ok}
use replica_t.Types.Models.{DateTime}
use replica_t.Storage.Backend.{Call, Bytes}
use replica_t.Storage.Schedule.{IsSchedule}
use replica_t.Storage.InMemory
use replica_t.Storage.InMemory.{InMemoryStorage, calculate_etag, stored}
use replica_t.Storage.Cluster.{Cluster, at, backends_from}
use replica_t.Storage.Cluster.MultiSync.{length-backends_from}
use replica_t.Storage.Cluster.ReadBack.{get_after_put, answer, read_back, tasks_answer}
use replica_t.Storage.Cluster.LeftBehind.{put_object_async_replication}
use replica_t.Storage.Cluster.Log.{
  Timed, Leads, at_store, on_store-Leads, replay, run_timed, run_timed-Leads,
}
use replica_t.Storage.Cluster.LastWriter.{
  Found, IsTaskOf, last_writer, object, get-replay, last_writer-primary, All-IsOnBackend,
}
use replica_t.Storage.MultiBackend.{MultiBackend}
use replica_t.Storage.MultiBackend.Others.{at_others}
use replica_t.Storage.MultiBackend.Jobs.{Job, replicate, put_on, delete_on, run_job}
use replica_t.Storage.MultiBackend.Reads.{get_object}
use replica_t.Storage.MultiBackend.Writes.{put_object}

-- A PUT of the replication, on one of `n` backends but the primary.
abbrev pub IsReplicaPut : ℕ → ℕ → Text → Bytes → Job → Type 0
IsReplicaPut n p key body (replicate k) = ⊥
IsReplicaPut n p key body (put_on j k sent) =
    (j < n) × ((j == p) ≡ false) × (k ≡ key) × (sent ≡ ok body ∷ [])
IsReplicaPut n p key body (delete_on j k) = ⊥

IsReplicaPut-IsTaskOf :
    (n p : ℕ) (key : Text) (body : Bytes) (job : Job)
    → IsReplicaPut n p key body job
    → IsTaskOf n p key body job
IsReplicaPut-IsTaskOf n p key body (replicate k) h = h
IsReplicaPut-IsTaskOf n p key body (put_on j k sent) h = h
IsReplicaPut-IsTaskOf n p key body (delete_on j k) h = absurd h

-- When the last PUT on backend `i` ran, or else `d`.
unfoldable last_time : ℕ → List Timed → DateTime → DateTime
last_time i [] d = d
last_time i ((now, replicate k) ∷ jobs) d = last_time i jobs d
last_time i ((now, put_on j k sent) ∷ jobs) d = last_time i jobs (if j == i then now j else d)
last_time i ((now, delete_on j k) ∷ jobs) d = last_time i jobs d

-- Every other backend has run its PUT.
abbrev pub HaveRun : ℕ → ℕ → Text → Bytes → List Timed → Type 0
HaveRun n p key body jobs =
    (j : ℕ)
    → j < n
    → (j == p) ≡ false
    → (k : ℕ) × (now : ℕ → DateTime) × (get_elem? jobs k ≡ some (now, put_on j key (ok body ∷ [])))

module _ (object : DateTime → Found) (n p : ℕ) (key : Text) (body : Bytes) (i : ℕ) where
  last_writer-object :
      (jobs : List Timed) (d : DateTime)
      → All (λ t. IsReplicaPut n p key body t.1) jobs
      → last_writer object i jobs (object d) ≡ object (last_time i jobs d)
  unfolding last_writer last_time
  last_writer-object [] d h = refl
  last_writer-object ((now, replicate k) ∷ jobs) d h = absurd h.0
  last_writer-object ((now, delete_on j k) ∷ jobs) d h = absurd h.0
  last_writer-object ((now, put_on j k sent) ∷ jobs) d h = elim (Bool-cases (j == i)) [
    | inl e ↦ rw e (last_writer-object jobs (now j) h.1)
    | inr e ↦ rw e (last_writer-object jobs d h.1)
  ]

  abbrev job_index : Job → ℕ
  job_index (replicate k) = 0
  job_index (put_on j k sent) = j
  job_index (delete_on j k) = j

  -- A PUT that has run decides what the backend answers.
  last_writer_ran :
      (jobs : List Timed) (k : ℕ) (clock : ℕ → DateTime) (before : Found) (d : DateTime)
      → All (λ t. IsReplicaPut n p key body t.1) jobs
      → get_elem? jobs k ≡ some (clock, put_on i key (ok body ∷ []))
      → last_writer object i jobs before ≡ object (last_time i jobs d)
  unfolding last_writer last_time
  last_writer_ran [] k clock before d h e = absurd (ground (arith, e))
  last_writer_ran ((now, replicate x) ∷ jobs) k clock before d h e = absurd h.0
  last_writer_ran ((now, delete_on j x) ∷ jobs) k clock before d h e = absurd h.0
  last_writer_ran ((now, put_on j x sent) ∷ jobs) zero clock before d h e =
      let same : j ≡ i = ap (λ t. job_index t.1) (some-injective _ _ e) in
      let here : (j == i) ≡ true = (==_iff j i).1 same in
      rw here (last_writer-object jobs (now j) h.1)
  last_writer_ran ((now, put_on j x sent) ∷ jobs) (suc k) clock before d h e =
      last_writer_ran jobs k clock _ _ h.1 e

module _ (c : Crypto) (m : MultiBackend Cluster) (n : ℕ)
    (backends : m.backends ≡ backends_from c 0 n) (reason key : Text) (chunks : List Bytes) where
  abbrev body : Bytes
  body = flatten chunks

  abbrev put_call : DateTime → Call InMemoryStorage Text
  put_call now = InMemory.put_object c now key (map ok chunks)

  -- When backend `i` stored what it holds at the end.
  abbrev times : Cluster → List Timed → ℕ → DateTime
  times w jobs i =
      if m.primary_index == i then w.clock m.primary_index else last_time i jobs (w.clock i)

  answers_at_end :
      (w : Cluster) (jobs : List Timed) (i : ℕ) (s : InMemoryStorage)
      → i < n
      → All (λ t. IsReplicaPut n m.primary_index key body t.1) jobs
      → HaveRun n m.primary_index key body jobs
      → (InMemory.get_object key (
          replay c jobs i
            (at_store m.primary_index (λ t. (put_call (w.clock m.primary_index) t).1) i s))).0
        ≡ ok (answer c reason key chunks (at (times w jobs) w) i)
  answers_at_end w jobs i s b puts ran =
      let p = m.primary_index in
      let tasks =
        All-map (λ t. IsReplicaPut n p key body t.1) (λ t. IsTaskOf n p key body t.1) jobs
          (λ t. IsReplicaPut-IsTaskOf n p key body t.1) puts in
      let found = object c n p key body in
      get-replay c n p key body jobs i _ tasks ∙ elim (Bool-cases (p == i)) [
        | inl e ↦ rw e (
            ap (last_writer found i jobs)
              (ap (λ r. r.0) (get_after_put c reason key chunks (w.clock p) s))
            ∙ subst (λ j. last_writer found j jobs (found (w.clock p)) ≡ found (w.clock p))
                ((==_iff p i).0 e)
                (last_writer-primary c n p key body jobs (found (w.clock p)) tasks))
        | inr e ↦
            let other : (i == p) ≡ false = ground (arith, e, ==_iff p i, ==_iff i p) in
            let (k, clock, at_k) = ran i b other in
            rw e (last_writer_ran found n p key body i jobs k clock _ (w.clock i) puts at_k)
      ]

  -- Asynchronous replication over `n` in-memory backends, more than one, converges: a PUT of a whole
  -- body returns its ETag and leaves one task behind; that task, if it runs next, at whatever later
  -- time, leaves a PUT for every backend below `n` but the primary; and once such PUTs have run, at
  -- least one on each of these backends, in any order and each at a time of its own, a GET of the key
  -- returns the body, with the metadata of a PUT at some time, in every read mode and under every
  -- schedule.
  pub async_replication_converges :
      (order schedule : List ℕ) (later : ℕ → DateTime) (jobs : List Timed) (w : Cluster)
      → m.write_mode ≡ async_replication
      → m.primary_index < n
      → 1 < n
      → length w.stores ≡ n
      → All (λ t. IsReplicaPut n m.primary_index key (flatten chunks) t.1) jobs
      → HaveRun n m.primary_index key (flatten chunks) jobs
      → IsSchedule n schedule
      → (w' : Cluster) × (now : DateTime) × (put_object reason m order key (map ok chunks) w
          ≡ (ok (calculate_etag c (flatten chunks)), w', replicate key ∷ []))
        × (run_job m (replicate key) (at later w') ≡ (
          at later w',
          at_others (λ j. put_on j key (ok (flatten chunks) ∷ [])) m.primary_index n,
        ))
        × ((get_object m schedule key (run_timed m jobs (at later w'))).0
            ≡ ok (ok (flatten chunks) ∷ [], (stored c now key (flatten chunks)).metadata))
  unfolding get_object InMemory.get_object
  async_replication_converges order schedule later jobs w mode p more l puts ran s =
      let i = m.primary_index in
      let (w', put, e, replicated) =
        put_object_async_replication c m n backends reason key chunks order w mode p more l in
      let first : Leads (at_store i (λ t. (put_call (w.clock i) t).1)) w w' =
        rw e (on_store-Leads i put_call w (rw l p)) in
      let tasks =
        All-map (λ t. IsReplicaPut n i key body t.1) (λ t. IsTaskOf n i key body t.1) jobs
          (λ t. IsReplicaPut-IsTaskOf n i key body t.1) puts in
      let second =
        run_timed-Leads c m n backends jobs (at later w')
          (All-IsOnBackend c n i key body jobs tasks) (first.same_length ∙ l) in
      let end = run_timed m jobs (at later w') in
      let each = tasks_answer c reason key chunks m n (at (times w jobs) w) end backends λ k b.
        let (old, at_k) = get_elem?-some w.stores k (rw l b) in
        let final = second.store_after k _ (first.store_after k old at_k) in
        let answered = answers_at_end w jobs k old b puts ran in
        let store = replay c jobs k (at_store i (λ t. (put_call (w.clock i) t).1) k old) in
        (store, final, λ x. (answered x, store)) in
      let (k, below, got) =
        read_back c reason key chunks m n schedule (at (times w jobs) w) end
          (rw backends (length-backends_from c 0 n)) p s each m.read_mode in
      (w', times w jobs k, put, replicated later, got)
