-- ===== src/Tests/Reads.antt =====
-- Runs of the four ways to read.
use replica_t.Common.{
  get_elem?, ℕ, ◌≡◌, ◌↔◌, none, some, List, [], ◌∷◌, map, length, arith, enumerate_from,
}
use replica_t.Types.Error.{ok, no_such_key}
use replica_t.Types.Models.{ObjectMetadata}
use replica_t.Config.Modes.{primary_fallback, best_effort, all_consistent}
use replica_t.Storage.Schedule.{join_all}
use replica_t.Storage.MultiBackend.{MultiBackend}
use replica_t.Storage.MultiBackend.Utils.{
  Operation, try_primary_fallback, race_all_backends, verify_all_consistent_etag,
  verify_all_succeed,
}
use replica_t.Storage.MultiBackend.Reads.{is_no_such_key, head_object_primary_fallback}
use replica_t.Storage.MultiBackend.Utils.Fallback.{head_object_primary_fallback-eq}
use replica_t.Storage.MultiBackend.Utils.Race.{RaceRun, race_all_backends-iff_RaceRun}
use replica_t.Storage.MultiBackend.Utils.Consistent.{AllAgree, verify_all_consistent_etag-ok_iff}
use replica_t.Storage.MultiBackend.Utils.Succeed.{verify_all_succeed-ok_iff}
use replica_t.Tests.Data.{key, metadata, answering, one_down, order, order-IsSchedule}

abbrev head : Operation ℕ ObjectMetadata
head b = b.head_object key

abbrev etag_of : ObjectMetadata → List ℕ
etag_of m = m.etag

race_all_backends-iff_RaceRun_example :
    (race_all_backends (one_down best_effort) order is_no_such_key no_such_key head 0
      ≡ (ok (metadata []), 1))
    ↔ RaceRun is_no_such_key
        (map head (one_down best_effort).backends)
        no_such_key
        none
        order
        0
        (ok (metadata []))
        1
race_all_backends-iff_RaceRun_example =
    race_all_backends-iff_RaceRun (one_down best_effort) order is_no_such_key no_such_key head 0
      (ok (metadata [])) 1 order-IsSchedule

head_object_primary_fallback-eq_example :
    head_object_primary_fallback (one_down primary_fallback) key 0
    ≡ try_primary_fallback (one_down primary_fallback) is_no_such_key no_such_key head 0
head_object_primary_fallback-eq_example =
    head_object_primary_fallback-eq (one_down primary_fallback) key 0

-- Both backends have the object, with one ETag.
abbrev both_up : MultiBackend ℕ
both_up = record (one_down all_consistent) {
  backends = answering (ok (metadata [])) ∷ answering (ok (metadata [])) ∷ [];
}

verify_all_consistent_etag-ok_iff_example :
    ((verify_all_consistent_etag both_up order etag_of head 0).0 ≡ ok (metadata [])) ↔ (
      (answers : List ObjectMetadata) × ((join_all (map head both_up.backends) order 0).0
        ≡ ok (enumerate_from 0 (map ok answers)))
      × (length answers ≡ length both_up.backends)
      × AllAgree 0 etag_of answers (metadata []))
verify_all_consistent_etag-ok_iff_example =
    verify_all_consistent_etag-ok_iff both_up order etag_of head 0 (metadata []) order-IsSchedule

verify_all_succeed-ok_iff_example :
    ((verify_all_succeed both_up order head 0).0 ≡ ok (metadata [])) ↔ (
      (answers : List ObjectMetadata) × ((join_all (map head both_up.backends) order 0).0
        ≡ ok (enumerate_from 0 (map ok answers)))
      × (length answers ≡ length both_up.backends)
      × (get_elem? answers 0 ≡ some (metadata [])))
verify_all_succeed-ok_iff_example =
    verify_all_succeed-ok_iff both_up order head 0 (metadata []) (omega arith) order-IsSchedule
