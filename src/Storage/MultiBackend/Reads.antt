-- ===== src/Storage/MultiBackend/Reads.antt =====
-- storage/multi_backend/{head_bucket,head_object,get_object}.rs: the read operations by read mode.
-- `order` is the schedule of the concurrent calls; the sequential modes make none.
use replica_t.Common.{ℕ, Text, Bool, true, false, none, some, List, [], ◌∷◌}
use replica_t.Config.Modes.{ReadMode, primary_only, primary_fallback, best_effort, all_consistent}
use replica_t.Types.Error.{S3Error, ok, err, panic, no_such_key, no_such_bucket}
use replica_t.Types.Models.{ObjectMetadata}
use replica_t.Storage.Backend.{StorageBackend, Call, ObjectStream}
use replica_t.Storage.MultiBackend.{MultiBackend, primary, other_backends}
use replica_t.Storage.MultiBackend.Utils.{
  Operation, on_result, try_primary_fallback, race_all_backends, verify_all_consistent_etag,
  verify_all_succeed,
}

-- `matches!(e, S3Error::NoSuchKey)`
unfoldable pub is_no_such_key : S3Error → Bool
is_no_such_key no_such_key = true
is_no_such_key e = false

unfoldable pub is_no_such_bucket : S3Error → Bool
is_no_such_bucket no_such_bucket = true
is_no_such_bucket e = false

module _ {W : Type 0} where
  -- `self.primary().…`: the call goes to the primary backend alone.
  unfoldable pub on_primary : {A : Type 0} → MultiBackend W → Operation W A → Call W A
  unfolding primary
  on_primary m operation w = elim (primary m) [ none ↦ (panic, w) | some b ↦ operation b w ]

  unfoldable pub head_bucket_impl : MultiBackend W → List ℕ → ReadMode → Call W (Unit {0})
  head_bucket_impl m order primary_only = on_primary m (λ b. b.head_bucket)
  head_bucket_impl m order primary_fallback =
      try_primary_fallback m is_no_such_bucket no_such_bucket (λ b. b.head_bucket)
  head_bucket_impl m order best_effort =
      race_all_backends m order is_no_such_bucket no_such_bucket (λ b. b.head_bucket)
  head_bucket_impl m order all_consistent = verify_all_succeed m order (λ b. b.head_bucket)

  unfoldable pub head_bucket : MultiBackend W → List ℕ → Call W (Unit {0})
  unfolding head_bucket_impl
  head_bucket m order = head_bucket_impl m order m.read_mode

  -- HEAD has its own loop over the other backends.
  unfoldable pub head_others : Text → List (StorageBackend W) → Call W ObjectMetadata
  head_others key [] w = (err no_such_key, w)
  head_others key (backend ∷ backends) w =
      on_result (backend.head_object key w) (λ metadata w'. (ok metadata, w'))
        (λ e. head_others key backends)

  -- A "not found" of the primary is final.
  unfoldable pub head_object_primary_fallback : MultiBackend W → Text → Call W ObjectMetadata
  unfolding head_others
  head_object_primary_fallback m key w = elim (primary m) [
    | none ↦ (panic, w)
    | some b ↦
        on_result (b.head_object key w) (λ a w'. (ok a, w'))
          λ e w'. elim e [
            | no_such_key ↦ (err no_such_key, w')
            | _ ↦ head_others key (other_backends m) w'
          ]
  ]

  unfoldable pub head_object_impl :
      MultiBackend W → List ℕ → Text → ReadMode → Call W ObjectMetadata
  unfolding head_object_primary_fallback
  head_object_impl m order key primary_only = on_primary m (λ b. b.head_object key)
  head_object_impl m order key primary_fallback = head_object_primary_fallback m key
  head_object_impl m order key best_effort =
      race_all_backends m order is_no_such_key no_such_key (λ b. b.head_object key)
  head_object_impl m order key all_consistent =
      verify_all_consistent_etag m order (λ metadata. metadata.etag) (λ b. b.head_object key)

  unfoldable pub head_object : MultiBackend W → List ℕ → Text → Call W ObjectMetadata
  unfolding head_object_impl
  head_object m order key = head_object_impl m order key m.read_mode

  unfoldable pub get_object_impl :
      MultiBackend W → List ℕ → Text → ReadMode → Call W (ObjectStream × ObjectMetadata)
  get_object_impl m order key primary_only = on_primary m (λ b. b.get_object key)
  get_object_impl m order key primary_fallback =
      try_primary_fallback m is_no_such_key no_such_key (λ b. b.get_object key)
  get_object_impl m order key best_effort =
      race_all_backends m order is_no_such_key no_such_key (λ b. b.get_object key)
  get_object_impl m order key all_consistent =
      verify_all_consistent_etag m order (λ result. result.1.etag) (λ b. b.get_object key)

  unfoldable pub get_object :
      MultiBackend W → List ℕ → Text → Call W (ObjectStream × ObjectMetadata)
  unfolding get_object_impl
  get_object m order key = get_object_impl m order key m.read_mode
