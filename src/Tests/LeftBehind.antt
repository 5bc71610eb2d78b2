-- ===== src/Tests/LeftBehind.antt =====
-- Runs of PUTs that leave tasks behind.
use replica_t.Common.{
  zero, suc, ℕ, pos, ◌≡◌, refl, some, List, [], ◌∷◌, ◌++◌, map, length, get_elem?, arith,
}
use mathlib.Core.List.{flatten}
use replica_t.Config.Modes.{best_effort, async_replication}
use replica_t.Types.Error.{ok, err}
use replica_t.Storage.InMemory
use replica_t.Storage.InMemory.{calculate_etag, stored}
use replica_t.Storage.Cluster.{Cluster, at, on_store}
use replica_t.Storage.Cluster.LeftBehind.{
  put_object_multi_sync_broken, put_object_async_replication,
}
use replica_t.Storage.MultiBackend.{MultiBackend}
use replica_t.Storage.MultiBackend.Jobs.{Job, replicate, put_on, delete_on, run_job}
use replica_t.Storage.MultiBackend.Reads.{get_object}
use replica_t.Storage.Cluster.Log.{Timed, run_timed}
use replica_t.Storage.MultiBackend.Others.{at_others}
use replica_t.Types.Models.{DateTime}
use replica_t.Storage.MultiBackend.Writes.{put_object}
use replica_t.Storage.MultiBackend.Deletes.{delete_object}
use replica_t.Storage.Cluster.LastWriter.{last_writer}
use replica_t.Storage.Cluster.Converges.{HaveRun, async_replication_converges}
use replica_t.Storage.Cluster.DeleteRace.{async_delete_race}
use replica_t.Tests.Data.{
  order-IsSchedule, empty, crypto, key, other_key, chunks, broken, cluster, replicated, order,
  clock,
}

put_object_multi_sync_broken_example :
    (jobs : List Job) × (put_object []
        (replicated best_effort)
        order
        key
        (map ok chunks ++ err broken ∷ [])
        cluster
      ≡ (err broken, cluster, jobs))
    × (length jobs ≡ 2)
    × ((k : ℕ) (j : Job) (w' : Cluster)
        → get_elem? jobs k ≡ some j
        → length w'.stores ≡ 2
        → run_job (replicated best_effort) j w' ≡ (w', []))
put_object_multi_sync_broken_example =
    put_object_multi_sync_broken crypto (replicated best_effort) 2 refl [] key chunks broken []
      order cluster refl

abbrev in_background : MultiBackend Cluster
in_background = record (replicated best_effort) { write_mode = async_replication }

put_object_async_replication_example :
    (w' : Cluster) × (put_object [] in_background order other_key (map ok chunks) cluster
      ≡ (ok (calculate_etag crypto (flatten chunks)), w', replicate other_key ∷ []))
    × (w'
        ≡ (on_store 1 (λ now. InMemory.put_object crypto now other_key (map ok chunks)) cluster).1)
    × ((later : ℕ → DateTime)
        → run_job in_background (replicate other_key) (at later w')
          ≡ (at later w', at_others (λ j. put_on j other_key (ok (flatten chunks) ∷ [])) 1 2))
put_object_async_replication_example =
    put_object_async_replication crypto in_background 2 refl [] other_key chunks order cluster refl
      (omega arith) (omega arith) refl

-- The DELETE reaches backend 0 before the replication does: the object is back.
abbrev later : ℕ → DateTime
later i = pos 9

abbrev out_of_order : List Timed
out_of_order =
    (later, delete_on 0 other_key) ∷ (later, put_on 0 other_key (ok (flatten chunks) ∷ [])) ∷ []

async_delete_race_example :
    (w' : Cluster) × (w'' : Cluster) × (put_object [] in_background order other_key
        (map ok chunks)
        cluster
      ≡ (ok (calculate_etag crypto (flatten chunks)), w', replicate other_key ∷ []))
    × (run_job in_background (replicate other_key) (at clock w')
        ≡ (at clock w', at_others (λ j. put_on j other_key (ok (flatten chunks) ∷ [])) 1 2))
    × (delete_object in_background order other_key (at clock w')
        ≡ (ok tt, w'', at_others (λ j. delete_on j other_key) 1 2))
    × ((get_object in_background
          (0 ∷ 1 ∷ [])
          other_key
          (run_timed in_background out_of_order w'')).0
        ≡ ok (
          ok (flatten chunks) ∷ [],
          (stored crypto (later 0) other_key (flatten chunks)).metadata,
        ))
unfolding last_writer
async_delete_race_example =
    async_delete_race crypto in_background 2 refl other_key [] chunks order (1 ∷ []) 0 out_of_order
      clock clock cluster empty refl refl (omega arith) (omega arith) refl (omega arith) refl
      ((omega arith, refl, refl), ((omega arith, refl, refl, refl), tt))

-- The one other backend is backend 0.
abbrev one_put : List Timed
one_put = (later, put_on 0 other_key (ok (flatten chunks) ∷ [])) ∷ []

one_put-HaveRun : HaveRun 2 1 other_key (flatten chunks) one_put
one_put-HaveRun zero b other = (0, later, refl)
one_put-HaveRun (suc zero) b other = absurd (ground (arith, other))
one_put-HaveRun (suc (suc j)) b other = absurd (omega arith)

async_replication_converges_example :
    (w' : Cluster) × (now : DateTime) × (put_object [] in_background order other_key
        (map ok chunks)
        cluster
      ≡ (ok (calculate_etag crypto (flatten chunks)), w', replicate other_key ∷ []))
    × (run_job in_background (replicate other_key) (at clock w')
        ≡ (at clock w', at_others (λ j. put_on j other_key (ok (flatten chunks) ∷ [])) 1 2))
    × ((get_object in_background order other_key (run_timed in_background one_put (at clock w'))).0
        ≡ ok (ok (flatten chunks) ∷ [], (stored crypto now other_key (flatten chunks)).metadata))
async_replication_converges_example =
    async_replication_converges crypto in_background 2 refl [] other_key chunks order order clock
      one_put cluster refl (omega arith) (omega arith) refl ((omega arith, refl, refl, refl), tt)
      one_put-HaveRun order-IsSchedule
