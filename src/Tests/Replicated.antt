-- ===== src/Tests/Replicated.antt =====
-- Runs over two in-memory backends.
use replica_t.Common.{List, ℕ, ◌<◌, ◌≡◌, refl, some, [], ◌∷◌, map, length, arith, get_elem?}
use mathlib.Core.List.{flatten}
use replica_t.Types.Error.{ok, err, internal_error}
use replica_t.Types.Models.{ObjectMetadata}
use replica_t.Config.Modes.{best_effort, all_consistent}
use replica_t.Storage.InMemory
use replica_t.Storage.InMemory.{InMemoryStorage, stored, calculate_etag}
use replica_t.Storage.Cluster.{Cluster}
use replica_t.Storage.Cluster.MultiSync.{put_object_multi_sync}
use replica_t.Storage.Cluster.ReadBack.{get_object-put_object_multi_sync}
use replica_t.Storage.MultiBackend.Reads.{head_object, get_object}
use replica_t.Storage.MultiBackend.Writes.{put_object}
use replica_t.Storage.MultiBackend.Deletes.{delete_object}
use replica_t.Storage.MultiBackend.Utils.{only_succeeded}
use replica_t.Storage.MultiBackend.Utils.Absent.{absent_error}
use replica_t.Storage.Cluster.Deleted.{reads-delete_object_multi_sync}
use replica_t.Tests.Data.{
  crypto, clock, now, key, other_key, chunks, one_object, cluster, replicated, order,
  order-IsSchedule,
}

put_object_multi_sync_example :
    (w' : Cluster) × (put_object [] (replicated best_effort) order key (map ok chunks) cluster
      ≡ (ok (calculate_etag crypto (flatten chunks)), w', []))
    × (length w'.stores ≡ 2)
    × ((i : ℕ) (s : InMemoryStorage)
        → get_elem? cluster.stores i ≡ some s
        → get_elem? w'.stores i
          ≡ some (InMemory.put_object crypto (clock i) key (map ok chunks) s).1)
put_object_multi_sync_example =
    put_object_multi_sync crypto [] key chunks (replicated best_effort) 2 order cluster refl refl
      (omega arith) refl order-IsSchedule

get_object-put_object_multi_sync_example :
    (i : ℕ) × (i < 2)
    × ((get_object
          (replicated all_consistent)
          order
          other_key
          (put_object [] (replicated all_consistent) order other_key (map ok chunks) cluster).1).0
        ≡ ok (
          ok (flatten chunks) ∷ [],
          (stored crypto (clock i) other_key (flatten chunks)).metadata,
        ))
get_object-put_object_multi_sync_example =
    get_object-put_object_multi_sync crypto [] other_key chunks (replicated all_consistent) 2 order
      order cluster refl refl (omega arith) refl order-IsSchedule order-IsSchedule

reads-delete_object_multi_sync_example :
    (w' : Cluster) × (delete_object (replicated all_consistent) order other_key cluster
      ≡ (ok tt, w', []))
    × (w'.clock ≡ clock)
    × ((i : ℕ) (s : InMemoryStorage)
        → get_elem? cluster.stores i ≡ some s
        → get_elem? w'.stores i ≡ some (InMemory.delete_object other_key s).1)
    × (head_object (replicated all_consistent) order other_key w'
        ≡ (err (internal_error (only_succeeded 0 2)), w'))
    × (get_object (replicated all_consistent) order other_key w'
        ≡ (err (internal_error (only_succeeded 0 2)), w'))
unfolding absent_error
reads-delete_object_multi_sync_example =
    reads-delete_object_multi_sync other_key crypto (replicated all_consistent) 2 order order
      cluster refl refl (omega arith) refl order-IsSchedule order-IsSchedule

-- Both stores hold the object `other_key`.
abbrev in_sync : Cluster
in_sync = record { stores = one_object ∷ one_object ∷ []; clock = clock }

abbrev its_metadata : ObjectMetadata
its_metadata = (stored crypto now other_key (5 ∷ [])).metadata
