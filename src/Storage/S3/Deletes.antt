-- ===== src/Storage/S3/Deletes.antt =====
-- DELETE of storage/s3.rs behind the multi-backend storage.
use replica_t.Common.{
  ℕ, ◌<◌, Text, ◌≡◌, refl, sym, subst, All, All-get_elem?, ap, ◌∙◌, List, [], ◌∷◌, map, length,
  length-map, get_elem?-some, arith,
}
use replica_t.Crypto.{Crypto}
use replica_t.Chrono.{Chrono}
use replica_t.Config.Modes.{WriteMode, async_replication, multi_sync}
use replica_t.Types.Error.{Result, Tried, ok, err, panic, returned, failed, ◌>>=◌}
use replica_t.Types.Models.{DateTime}
use replica_t.Storage.Backend.{StorageBackend}
use replica_t.Storage.Schedule.{IsSchedule}
use replica_t.Storage.Schedule.Agreed.{AlwaysGive, join_all_given}
use replica_t.Storage.MultiBackend.{MultiBackend, primary}
use replica_t.Storage.MultiBackend.Reads.{on_primary}
use replica_t.Storage.MultiBackend.Jobs.{Job}
use replica_t.Storage.MultiBackend.Writes.{spawn_on_ok}
use replica_t.Storage.MultiBackend.Deletes.{
  check_deletes, spawn_background_deletes, delete_object_async_replication,
  delete_object_multi_sync, delete_object_impl, delete_object,
}
use replica_t.Storage.MultiBackend.Deletes.AllSucceed.{check_deletes-replicate}
use replica_t.Storage.S3
use replica_t.Storage.S3.{S3Backend, s3_storage, received}

-- Whatever the SDK reports, the backend's DELETE succeeds.
received-ok :
    {A W : Type 0} (r : Tried A × W)
    → (received {B = Unit {0}} (λ _. ok tt) (λ _. ok tt) r).0 ≡ ok tt
received-ok (returned a, w) = refl
received-ok (failed e, w) = refl

spawn_on_ok-ok :
    {A W : Type 0} (r : Result A × W) (jobs : List Job) (a : A)
    → r.0 ≡ ok a
    → (spawn_on_ok r jobs).0 ≡ ok a
unfolding spawn_on_ok
spawn_on_ok-ok (ok x, w) jobs a h = h
spawn_on_ok-ok (err e, w) jobs a h = absurd (ground (arith, h))
spawn_on_ok-ok (panic, w) jobs a h = absurd (ground (arith, h))

All-on_map :
    {A B : Type 0} (P : B → Type 0) (f : A → B) (l : List A)
    → All (λ x. P (f x)) l
    → All P (map f l)
All-on_map P f [] h = tt
All-on_map P f (x ∷ l) h = (h.0, All-on_map P f l h.1)

module _ (c : Crypto) (chrono : Chrono) (now : DateTime) {W : Type 0} (m : MultiBackend W)
    (buckets : List (S3Backend W)) (backends : m.backends ≡ map (s3_storage c chrono now) buckets)
    (order : List ℕ) (key : Text) where
  abbrev Deletes : StorageBackend W → Type 0
  Deletes b = (w : W) → (b.delete_object key w).0 ≡ ok tt

  buckets-Deletes :
      (buckets : List (S3Backend W)) → All Deletes (map (s3_storage c chrono now) buckets)
  unfolding s3_storage S3.delete_object
  buckets-Deletes [] = tt
  buckets-Deletes (b ∷ buckets) =
      (λ w. received-ok (b.client.delete_object b.bucket key w), buckets-Deletes buckets)

  backends-Deletes : All Deletes m.backends
  backends-Deletes = subst (All Deletes) (sym backends) (buckets-Deletes buckets)

  deletes-AlwaysGive : AlwaysGive (map (λ b. b.delete_object key) m.backends) (ok tt)
  deletes-AlwaysGive i task =
      All-get_elem? (λ task. (w : W) → (task w).0 ≡ ok tt)
        (map (λ b. b.delete_object key) m.backends) i task
        (All-on_map _ (λ b. b.delete_object key) m.backends backends-Deletes)

  delete_object_by_mode :
      (w : W)
      → m.primary_index < length m.backends
      → IsSchedule (length m.backends) order
      → (mode : WriteMode) → (delete_object_impl m order key mode w).0 ≡ ok tt
  unfolding delete_object_impl delete_object_async_replication delete_object_multi_sync on_primary
      primary
  delete_object_by_mode w in_bounds s async_replication =
      let (b, at) = get_elem?-some m.backends m.primary_index in_bounds in
      spawn_on_ok-ok (on_primary m (λ b. b.delete_object key) w) (spawn_background_deletes m key) tt
        (rw (at, on_primary, primary)
          (All-get_elem? Deletes m.backends m.primary_index b backends-Deletes at w))
  delete_object_by_mode w in_bounds s multi_sync =
      ap (λ r. r >>= check_deletes)
        (join_all_given (map (λ b. b.delete_object key) m.backends) (ok tt) deletes-AlwaysGive
          (λ e. ground (arith, e)) order w
          (rw (length-map (λ b. b.delete_object key) m.backends) s))
      ∙ check_deletes-replicate 0 (length (map (λ b. b.delete_object key) m.backends))

  -- Over S3 backends, with the primary index in bounds and under a schedule of all the calls: a
  -- DELETE succeeds in every write mode, whatever the SDK reports of any call.
  pub delete_object_unreported :
      (w : W)
      → m.primary_index < length m.backends
      → IsSchedule (length m.backends) order
      → (delete_object m order key w).0 ≡ ok tt
  unfolding delete_object
  delete_object_unreported w in_bounds s = delete_object_by_mode w in_bounds s m.write_mode
