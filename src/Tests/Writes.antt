-- ===== src/Tests/Writes.antt =====
-- Writes in MULTI_SYNC over two in-memory backends, and a DELETE over two buckets out of reach.
use replica_t.Common.{
  ℕ, Text, text, ◌≡◌, ◌↔◌, refl, List, [], ◌∷◌, map, length, replicate, get_elem?, enumerate_from,
  some, arith,
}
use mathlib.Core.List.{flatten}
use replica_t.Config.Modes.{best_effort, multi_sync, primary_only}
use replica_t.Types.Error.{ok}
use replica_t.Storage.InMemory.{calculate_etag}
use replica_t.Storage.Schedule.{join_all, join_spawned}
use replica_t.Storage.Cluster.{backends_from}
use replica_t.Storage.MultiBackend.{MultiBackend}
use replica_t.Storage.MultiBackend.Writes.{put_object_multi_sync_streaming}
use replica_t.Storage.MultiBackend.Writes.AllSucceed.{put_object_multi_sync_streaming-ok_iff}
use replica_t.Storage.MultiBackend.Deletes.{delete_object_multi_sync, delete_object}
use replica_t.Storage.MultiBackend.Deletes.AllSucceed.{delete_object_multi_sync-ok_iff}
use replica_t.Storage.S3.{S3Backend, s3_storage}
use replica_t.Storage.S3.Deletes.{delete_object_unreported}
use replica_t.Tests.Data.{crypto, now, key, chunks, cluster, replicated, order, order-IsSchedule}
use replica_t.Tests.Buckets.{bucket}
use replica_t.Tests.Web.{chrono}

abbrev etag : Text
etag = calculate_etag crypto (flatten chunks)

put_object_multi_sync_streaming-ok_iff_example :
    ((put_object_multi_sync_streaming []
        (replicated best_effort)
        key
        (map ok chunks)
        order
        cluster).0
      ≡ ok etag)
    ↔ ((answers : List Text) × ((join_spawned
            (map (λ b. b.put_object key (map ok chunks)) (replicated best_effort).backends)
            order
            cluster).0
          ≡ enumerate_from 0 (map ok answers))
        × (length answers ≡ length (replicated best_effort).backends)
        × (get_elem? answers 1 ≡ some etag))
unfolding backends_from
put_object_multi_sync_streaming-ok_iff_example =
    put_object_multi_sync_streaming-ok_iff [] (replicated best_effort) key chunks order cluster etag
      (omega arith) order-IsSchedule

delete_object_multi_sync-ok_iff_example :
    (((delete_object_multi_sync (replicated best_effort) key order cluster).0 ≡ ok tt) ↔ (
      (join_all (map (λ b. b.delete_object key) (replicated best_effort).backends) order cluster).0
      ≡ ok (enumerate_from 0 (replicate (length (replicated best_effort).backends) (ok tt)))))
    × ((delete_object_multi_sync (replicated best_effort) key order cluster).1
        ≡ (join_all
            (map (λ b. b.delete_object key) (replicated best_effort).backends)
            order
            cluster).1)
    × ((delete_object_multi_sync (replicated best_effort) key order cluster).2 ≡ [])
unfolding backends_from
delete_object_multi_sync-ok_iff_example =
    delete_object_multi_sync-ok_iff (replicated best_effort) key order cluster order-IsSchedule

abbrev two_buckets : List (S3Backend ℕ)
two_buckets = bucket ∷ record bucket { bucket = text "c" } ∷ []

abbrev over_s3 : MultiBackend ℕ
over_s3 = record {
  backends = map (s3_storage crypto chrono now) two_buckets;
  primary_index = 0;
  read_mode = primary_only;
  write_mode = multi_sync;
}

delete_object_unreported_example : (delete_object over_s3 order key 0).0 ≡ ok tt
delete_object_unreported_example =
    delete_object_unreported crypto chrono now over_s3 two_buckets refl order key 0 (omega arith)
      order-IsSchedule
