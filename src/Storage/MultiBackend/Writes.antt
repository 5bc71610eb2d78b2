-- ===== src/Storage/MultiBackend/Writes.antt =====
-- storage/multi_backend/put_object.rs: PUT by write mode.
-- `order` is the schedule of the concurrent calls.
pub mod AllSucceed
use replica_t.Common.{
  ℕ, leb, Text, text, decimal, none, some, List, [], ◌∷◌, ◌++◌, map, set, replicate as copies,
  length, get_elem?, enumerate_from, if◌then◌else◌,
}
use replica_t.Config.Modes.{WriteMode, async_replication, multi_sync}
use replica_t.Types.Error.{Result, S3Error, ok, err, panic, internal_error, display, ◌>>=◌}
use replica_t.Storage.Backend.{StorageBackend, ObjectStream}
use replica_t.Storage.Schedule.{join_spawned}
use replica_t.Storage.MultiBackend.{MultiBackend}
use replica_t.Storage.MultiBackend.Reads.{on_primary}
use replica_t.Storage.MultiBackend.Jobs.{
  Job, replicate, Spawning, SourceEnd, finished, failed, unwound, read_source, put_jobs,
}

unfoldable pub put_failed : ℕ → S3Error → S3Error
put_failed i e =
    internal_error
      (text "Backend " ++ (decimal i ++ (text " failed in multi sync mode: " ++ display e)))

-- `task.await.map_err(…)?` for each task; `reason` is the text of tokio's `JoinError`.
unfoldable pub await_tasks :
    Text → List (ℕ × Result Text) → List ℕ → Result (List (ℕ × Result Text))
await_tasks reason [] ids = ok []
await_tasks reason (r ∷ results) [] = ok []
await_tasks reason ((j, panic) ∷ results) (i ∷ ids) =
    err (internal_error (text "Backend task panicked: " ++ reason))
await_tasks reason ((j, r) ∷ results) (i ∷ ids) =
    await_tasks reason results ids >>= λ rest. ok ((i, r) ∷ rest)

-- The loop over the results of a synchronous PUT.
unfoldable pub collect_etags : List Text → List (ℕ × Result Text) → Result (List Text)
collect_etags etags [] = ok etags
collect_etags etags ((i, ok etag) ∷ results) = collect_etags (set etags i etag) results
collect_etags etags ((i, err e) ∷ results) = err (put_failed i e)
collect_etags etags ((i, panic) ∷ results) = panic

-- `etags[self.primary_index].clone()`
unfoldable pub primary_etag : ℕ → List Text → Result Text
primary_etag p etags = elim (get_elem? etags p) [ none ↦ panic | some etag ↦ ok etag ]

module _ {W : Type 0} where
  unfoldable pub spawn_background_replication : MultiBackend W → Text → List Job
  spawn_background_replication m key = if leb (length m.backends) 1 then [] else replicate key ∷ []

  -- What is left behind is left behind only if the primary has stored the object.
  unfoldable pub spawn_on_ok : {A : Type 0} → Result A × W → List Job → Result A × W × List Job
  spawn_on_ok (ok a, w) jobs = (ok a, w, jobs)
  spawn_on_ok (err e, w) jobs = (err e, w, [])
  spawn_on_ok (panic, w) jobs = (panic, w, [])

  unfoldable pub put_object_async_replication_streaming :
      MultiBackend W → Text → ObjectStream → Spawning W Text
  unfolding spawn_on_ok spawn_background_replication on_primary
  put_object_async_replication_streaming m key body w =
      spawn_on_ok (on_primary m (λ b. b.put_object key body) w) (spawn_background_replication m key)

module _ {W : Type 0} (reason : Text) where
  -- After the source has ended: the tasks are awaited, or left behind with what was sent.
  unfoldable pub end_broadcast :
      List (ℕ × StorageBackend W)
      → Text
      → List ℕ
      → ObjectStream × SourceEnd
      → Spawning W (List (ℕ × Result Text))
  unfolding await_tasks
  end_broadcast backends key order (sent, finished) w =
      let (results, w') = join_spawned (map (λ b. b.1.put_object key sent) backends) order w in
      (await_tasks reason results (map (λ b. b.0) backends), w', [])
  end_broadcast backends key order (sent, failed e) w = (err e, w, put_jobs key sent backends)
  end_broadcast backends key order (sent, unwound) w = (panic, w, put_jobs key sent backends)

  unfoldable pub broadcast_stream_to_backends :
      List (ℕ × StorageBackend W)
      → Text
      → ObjectStream
      → List ℕ
      → Spawning W (List (ℕ × Result Text))
  unfolding end_broadcast read_source
  broadcast_stream_to_backends backends key stream order =
      end_broadcast backends key order (read_source stream)

  unfoldable pub put_object_multi_sync_streaming :
      MultiBackend W → Text → ObjectStream → List ℕ → Spawning W Text
  unfolding broadcast_stream_to_backends collect_etags primary_etag
  put_object_multi_sync_streaming m key body order w =
      let (results, w', jobs) =
        broadcast_stream_to_backends (enumerate_from 0 m.backends) key body order w in
      (
        results >>= λ rs.
            collect_etags (copies (length m.backends) []) rs >>= primary_etag m.primary_index,
        w',
        jobs,
      )

  unfoldable pub put_object_impl :
      MultiBackend W → List ℕ → Text → ObjectStream → WriteMode → Spawning W Text
  unfolding put_object_async_replication_streaming put_object_multi_sync_streaming
  put_object_impl m order key body async_replication =
      put_object_async_replication_streaming m key body
  put_object_impl m order key body multi_sync = put_object_multi_sync_streaming m key body order

  unfoldable pub put_object : MultiBackend W → List ℕ → Text → ObjectStream → Spawning W Text
  unfolding put_object_impl
  put_object m order key body = put_object_impl m order key body m.write_mode
