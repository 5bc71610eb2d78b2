-- ===== src/Storage/Cluster/LastWriter.antt =====
-- Tasks that replicate an object or delete it: the last one of a backend decides what it holds.
use replica_t.Common.{
  ℕ, ◌<◌, ◌==◌, Text, text_eq_refl, ◌≡◌, refl, ap, ◌∙◌, false, List, [], ◌∷◌, All, Bool-cases, inl,
  inr, if◌then◌else◌,
}
use mathlib.Core.List.{flatten, append-nil}
use replica_t.Crypto.{Crypto}
use replica_t.Types.Error.{Result, ok, err, no_such_key}
use replica_t.Types.Models.{DateTime, ObjectMetadata}
use replica_t.Storage.Backend.{ObjectStream, Bytes}
use replica_t.Storage.InMemory
use replica_t.Storage.InMemory.{InMemoryStorage, calculate_etag, stored}
use replica_t.Storage.InMemory.Objects.{get_object-put_object, get_object-delete_object}
use replica_t.Storage.Cluster.Log.{Timed, at_store, applied, replay, IsOnBackend}
use replica_t.Storage.MultiBackend.Jobs.{Job, replicate, put_on, delete_on}

-- What a GET returns.
abbrev pub Found : Type 0
Found = Result (ObjectStream × ObjectMetadata)

-- A task of the replication of an object, or of its DELETE, on one of `n` backends but the primary.
abbrev pub IsTaskOf : ℕ → ℕ → Text → Bytes → Job → Type 0
IsTaskOf n p key body (replicate k) = ⊥
IsTaskOf n p key body (put_on j k sent) =
    (j < n) × ((j == p) ≡ false) × (k ≡ key) × (sent ≡ ok body ∷ [])
IsTaskOf n p key body (delete_on j k) = (j < n) × ((j == p) ≡ false) × (k ≡ key)

-- What a GET of backend `i` answers once such tasks have run, from what it answered before: the last
-- task of the backend decides; `object` is what it answers after a PUT at a time.
unfoldable pub last_writer : (DateTime → Found) → ℕ → List Timed → Found → Found
last_writer object i [] before = before
last_writer object i ((now, replicate k) ∷ jobs) before = last_writer object i jobs before
last_writer object i ((now, put_on j k sent) ∷ jobs) before =
    last_writer object i jobs (if j == i then object (now j) else before)
last_writer object i ((now, delete_on j k) ∷ jobs) before =
    last_writer object i jobs (if j == i then err no_such_key else before)

module _ (c : Crypto) (n p : ℕ) (key : Text) (body : Bytes) where
  abbrev pub object : DateTime → Found
  object now = ok (ok body ∷ [], (stored c now key body).metadata)

  get_after_put :
      (now : DateTime) (s : InMemoryStorage)
      → (InMemory.get_object key (InMemory.put_object c now key (ok body ∷ []) s).1).0 ≡ object now
  get_after_put now s =
      let single : flatten (body ∷ []) ≡ body = unfold flatten in append-nil body in
      let e = (get_object-put_object c now key (body ∷ []) key s).1 in
      e ∙ rw (text_eq_refl key) (ap (λ b. ok (ok b ∷ [], (stored c now key b).metadata)) single)

  pub get_after_delete :
      (s : InMemoryStorage)
      → (InMemory.get_object key (InMemory.delete_object key s).1).0 ≡ err no_such_key
  get_after_delete s = get_object-delete_object key key s ∙ rw (text_eq_refl key) refl

  get-at_store :
      (j i : ℕ) (f : InMemoryStorage → InMemoryStorage) (s : InMemoryStorage) (r : Found)
      → (InMemory.get_object key (f s)).0 ≡ r
      → (InMemory.get_object key (at_store j f i s)).0
        ≡ (if j == i then r else (InMemory.get_object key s).0)
  get-at_store j i f s r h = elim (Bool-cases (j == i)) [ inl e ↦ rw e h | inr e ↦ rw e refl ]

  get-applied :
      (now : ℕ → DateTime) (job : Job) (i : ℕ) (s : InMemoryStorage)
      → IsTaskOf n p key body job
      → (InMemory.get_object key (applied c now job i s)).0
        ≡ last_writer object i ((now, job) ∷ []) (InMemory.get_object key s).0
  unfolding applied last_writer
  get-applied now (replicate k) i s h = absurd h
  get-applied now (put_on j k sent) i s (b, o, e, f) =
      rw (e, f)
        (get-at_store j i (λ t. (InMemory.put_object c (now j) key (ok body ∷ []) t).1) s
          (object (now j)) (get_after_put (now j) s))
  get-applied now (delete_on j k) i s (b, o, e) = rw e (
      get-at_store j i (λ t. (InMemory.delete_object key t).1) s (err no_such_key)
        (get_after_delete s))

  last_writer-cons :
      (job : Timed) (i : ℕ) (jobs : List Timed) (r : Found)
      → last_writer object i jobs (last_writer object i (job ∷ []) r)
        ≡ last_writer object i (job ∷ jobs) r
  unfolding last_writer
  last_writer-cons (now, replicate k) i jobs r = refl
  last_writer-cons (now, put_on j k sent) i jobs r = refl
  last_writer-cons (now, delete_on j k) i jobs r = refl

  pub get-replay :
      (jobs : List Timed) (i : ℕ) (s : InMemoryStorage)
      → All (λ j. IsTaskOf n p key body j.1) jobs
      → (InMemory.get_object key (replay c jobs i s)).0
        ≡ last_writer object i jobs (InMemory.get_object key s).0
  unfolding replay
  get-replay [] i s h = unfold last_writer in refl
  get-replay ((now, job) ∷ jobs) i s h =
      get-replay jobs i (applied c now job i s) h.1
      ∙ ap (last_writer object i jobs) (get-applied now job i s h.0)
      ∙ last_writer-cons (now, job) i jobs (InMemory.get_object key s).0

  -- No task of this kind is on the primary.
  pub last_writer-primary :
      (jobs : List Timed) (r : Found)
      → All (λ j. IsTaskOf n p key body j.1) jobs
      → last_writer object p jobs r ≡ r
  unfolding last_writer
  last_writer-primary [] r h = refl
  last_writer-primary ((now, replicate k) ∷ jobs) r h = absurd h.0
  last_writer-primary ((now, put_on j k sent) ∷ jobs) r h =
      rw (h.0.1) (last_writer-primary jobs r h.1)
  last_writer-primary ((now, delete_on j k) ∷ jobs) r h =
      rw (h.0.1) (last_writer-primary jobs r h.1)

  pub All-IsOnBackend :
      (jobs : List Timed)
      → All (λ j. IsTaskOf n p key body j.1) jobs
      → All (λ j. IsOnBackend n j.1) jobs
  All-IsOnBackend [] h = tt
  All-IsOnBackend ((now, replicate k) ∷ jobs) h = absurd h.0
  All-IsOnBackend ((now, put_on j k sent) ∷ jobs) h = (h.0.0, All-IsOnBackend jobs h.1)
  All-IsOnBackend ((now, delete_on j k) ∷ jobs) h = (h.0.0, All-IsOnBackend jobs h.1)
