-- ===== src/Storage/MultiBackend/Jobs.antt =====
-- The tasks that multi_backend/{put_object,delete_object}.rs leave running when a call returns.
use replica_t.Common.{ℕ, Text, none, some, List, [], ◌∷◌, map, get_elem?}
use replica_t.Types.Error.{Result, S3Error, ok, err, panic}
use replica_t.Storage.Backend.{StorageBackend, ObjectStream}
use replica_t.Storage.MultiBackend.{MultiBackend, primary, indexed_others}

pub data Job : Type 0 where
  -- GET from the primary, then broadcast to the other backends
  replicate : Text → Job
  -- a task of a broadcast, that reads its channel into one backend
  put_on : ℕ → Text → ObjectStream → Job
  delete_on : ℕ → Text → Job

-- A call that may leave tasks behind.
abbrev pub Spawning : Type 0 → Type 0 → Type 0
Spawning W A = W → Result A × W × List Job

-- How a source stream ends for the task that reads it.
pub data SourceEnd : Type 0 where
  finished : SourceEnd
  failed : S3Error → SourceEnd
  unwound : SourceEnd

-- What every channel of a broadcast carries, and how the source ended: an error is passed on and
-- ends the loop; a panic drops the senders, which closes the channels.
unfoldable pub read_source : ObjectStream → ObjectStream × SourceEnd
read_source [] = ([], finished)
read_source (ok chunk ∷ stream) = let (sent, end) = read_source stream in (ok chunk ∷ sent, end)
read_source (err e ∷ stream) = (err e ∷ [], failed e)
read_source (panic ∷ stream) = ([], unwound)

module _ {W : Type 0} where
  -- One task for each backend of a broadcast.
  unfoldable pub put_jobs : Text → ObjectStream → List (ℕ × StorageBackend W) → List Job
  put_jobs key sent = map (λ b. put_on b.0 key sent)

  -- The background task of an asynchronous PUT: the results of the broadcast are only logged.
  unfoldable pub run_replicate : MultiBackend W → Text → W → W × List Job
  unfolding put_jobs read_source
  run_replicate m key w = elim (primary m) [
    | none ↦ (w, [])
    | some b ↦
        let (r, w') = b.get_object key w in
        elim r [
          | ok (stream, metadata) ↦ (w', put_jobs key (read_source stream).0 (indexed_others m))
          | err e ↦ (w', [])
          | panic ↦ (w', [])
        ]
  ]

  -- One step of a background task; the result of a backend's call is only logged.
  unfoldable pub run_job : MultiBackend W → Job → W → W × List Job
  unfolding run_replicate
  run_job m (replicate key) w = run_replicate m key w
  run_job m (put_on i key sent) w = elim (get_elem? m.backends i) [
    | none ↦ (w, [])
    | some b ↦ ((b.put_object key sent w).1, [])
  ]
  run_job m (delete_on i key) w = elim (get_elem? m.backends i) [
    | none ↦ (w, [])
    | some b ↦ ((b.delete_object key w).1, [])
  ]
