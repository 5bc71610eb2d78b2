-- ===== src/Storage/MultiBackend/Service.antt =====
-- storage/multi_backend/mod.rs: the replicating storage as a `StorageBackend`. Its world holds,
-- beside what the backends reach, the tasks that its calls have left running.
use replica_t.Common.{ℕ, Text, List, ◌++◌}
use replica_t.Storage.Backend.{Call, StorageBackend}
use replica_t.Storage.MultiBackend.{MultiBackend}
use replica_t.Storage.MultiBackend.Jobs.{Job, Spawning}
use replica_t.Storage.MultiBackend.Reads.{head_bucket, head_object, get_object}
use replica_t.Storage.MultiBackend.ListObjects.{list_objects}
use replica_t.Storage.MultiBackend.Writes.{put_object}
use replica_t.Storage.MultiBackend.Deletes.{delete_object}

-- What the backends reach, and the tasks that are left to run.
abbrev pub Running : Type 0 → Type 0
Running W = W × List Job

module _ {W A : Type 0} where
  -- A call that leaves no task.
  unfoldable pub reading : Call W A → Call (Running W) A
  reading call (w, jobs) = let (r, w') = call w in (r, (w', jobs))

  -- A call whose tasks join those that run.
  unfoldable pub spawning : Spawning W A → Call (Running W) A
  spawning call (w, jobs) = let (r, w', spawned) = call w in (r, (w', jobs ++ spawned))

-- `impl StorageBackend for MultiBackend`, with the schedule of its concurrent calls and the text of
-- a task that is lost.
unfoldable pub multi_storage :
    {W : Type 0} → Text → MultiBackend W → List ℕ → StorageBackend (Running W)
unfolding reading spawning
multi_storage reason m order = record {
  head_bucket = reading (head_bucket m order);
  list_objects = λ prefix max_keys. reading (list_objects m order prefix max_keys);
  head_object = λ key. reading (head_object m order key);
  get_object = λ key. reading (get_object m order key);
  put_object = λ key body. spawning (put_object reason m order key body);
  delete_object = λ key. spawning (delete_object m order key);
}
