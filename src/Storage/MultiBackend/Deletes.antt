-- ===== src/Storage/MultiBackend/Deletes.antt =====
-- storage/multi_backend/delete_object.rs: DELETE by write mode. `order` is the schedule of the
-- concurrent calls.
pub mod AllSucceed
use replica_t.Common.{ℕ, leb, Text, text, decimal, List, [], ◌∷◌, ◌++◌, map, length, if◌then◌else◌}
use replica_t.Config.Modes.{WriteMode, async_replication, multi_sync}
use replica_t.Types.Error.{Result, S3Error, ok, err, panic, internal_error, display, ◌>>=◌}
use replica_t.Storage.Schedule.{join_all}
use replica_t.Storage.MultiBackend.{MultiBackend, indexed_others}
use replica_t.Storage.MultiBackend.Reads.{on_primary}
use replica_t.Storage.MultiBackend.Jobs.{Job, delete_on, Spawning}
use replica_t.Storage.MultiBackend.Writes.{spawn_on_ok}

unfoldable pub delete_failed : ℕ → S3Error → S3Error
delete_failed i e =
    internal_error (
      text "Backend "
      ++ (decimal i ++ (text " failed to delete in multi sync mode: " ++ display e)))

-- The loop over the results of a synchronous DELETE.
unfoldable pub check_deletes : List (ℕ × Result (Unit {0})) → Result (Unit {0})
check_deletes [] = ok tt
check_deletes ((i, ok _) ∷ results) = check_deletes results
check_deletes ((i, err e) ∷ results) = err (delete_failed i e)
check_deletes ((i, panic) ∷ results) = panic

module _ {W : Type 0} where
  unfoldable pub spawn_background_deletes : MultiBackend W → Text → List Job
  spawn_background_deletes m key =
      if leb (length m.backends) 1 then [] else map (λ b. delete_on b.0 key) (indexed_others m)

  unfoldable pub delete_object_async_replication : MultiBackend W → Text → Spawning W (Unit {0})
  unfolding spawn_background_deletes
  delete_object_async_replication m key w =
      spawn_on_ok (on_primary m (λ b. b.delete_object key) w) (spawn_background_deletes m key)

  unfoldable pub delete_object_multi_sync : MultiBackend W → Text → List ℕ → Spawning W (Unit {0})
  unfolding check_deletes
  delete_object_multi_sync m key order w =
      let (results, w') = join_all (map (λ b. b.delete_object key) m.backends) order w in
      (results >>= check_deletes, w', [])

  unfoldable pub delete_object_impl :
      MultiBackend W → List ℕ → Text → WriteMode → Spawning W (Unit {0})
  unfolding delete_object_async_replication delete_object_multi_sync
  delete_object_impl m order key async_replication = delete_object_async_replication m key
  delete_object_impl m order key multi_sync = delete_object_multi_sync m key order

  unfoldable pub delete_object : MultiBackend W → List ℕ → Text → Spawning W (Unit {0})
  unfolding delete_object_impl
  delete_object m order key = delete_object_impl m order key m.write_mode
