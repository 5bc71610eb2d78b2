-- ===== src/Storage/S3/Errors.antt =====
-- What the errors of storage/s3.rs mean to the multi-backend reads.
use replica_t.Common.{Text, some, ◌≡◌, refl, Bool, true, ℕ, List, if◌then◌else◌}
use replica_t.Crypto.{Crypto}
use replica_t.Chrono.{Chrono}
use replica_t.Config.Modes.{primary_fallback}
use replica_t.Types.Error.{
  S3Error, Result, ok, err, Tried, returned, failed, panic, no_such_key, no_such_bucket,
}
use replica_t.Types.Models.{DateTime}
use replica_t.Storage.Backend.{StorageBackend}
use replica_t.Storage.MultiBackend.{MultiBackend, primary, other_backends}
use replica_t.Storage.MultiBackend.Utils.{Operation, on_result, try_others, try_primary_fallback}
use replica_t.Storage.MultiBackend.Reads.{
  head_others, get_object_impl, head_object_impl, head_object_primary_fallback, head_bucket_impl,
  is_no_such_key, is_no_such_bucket,
}
use replica_t.Storage.S3.{
  S3Backend, s3_storage, received, ObjectOutput, extract_metadata, get_object, head_object,
  head_bucket,
}

-- An answer after which a fallback read asks no other backend.
abbrev IsFinal : {A : Type 0} → (S3Error → Bool) → Result A → Type 0
IsFinal is_not_found (err e) = is_not_found e ≡ true
IsFinal is_not_found r = Unit {0}

try_primary_fallback-IsFinal :
    {W A : Type 0} (m : MultiBackend W) (is_not_found : S3Error → Bool) (d : S3Error)
    (operation : Operation W A) (b : StorageBackend W) (world : W)
    → primary m ≡ some b
    → IsFinal is_not_found (operation b world).0
    → try_primary_fallback m is_not_found d operation world ≡ operation b world
unfolding try_primary_fallback on_result
try_primary_fallback-IsFinal {W = W} {A = A} m is_not_found d operation b world h final =
    rw (try_primary_fallback, h) (outcome (operation b world) final)
  where
    outcome :
        (r : Result A × W)
        → IsFinal is_not_found r.0
        → on_result r
            (λ a w'. (ok a, w'))
            (λ e w'.
              if is_not_found e then (err e, w') else try_others d operation (other_backends m) w')
          ≡ r
    outcome (ok a, w) f = refl
    outcome (err e, w) f = rw f refl
    outcome (panic, w) f = refl

received-IsFinal :
    {A B W : Type 0} (is_not_found : S3Error → Bool) (e : S3Error) (f : A → B) (r : Tried A × W)
    → is_not_found e ≡ true
    → IsFinal is_not_found (received (λ _. err e) (λ a. ok (f a)) r).0
received-IsFinal is_not_found e f (returned a, w) h = tt
received-IsFinal is_not_found e f (failed m, w) h = h

module _ (c : Crypto) (chrono : Chrono) (now : DateTime) {W : Type 0} (backend : S3Backend W)
    (m : MultiBackend W) (is_primary : primary m ≡ some (s3_storage c chrono now backend))
    (order : List ℕ) where
  get_object_no_fallback :
      (key : Text) (world : W)
      → get_object_impl m order key primary_fallback world
        ≡ get_object c chrono now backend key world
  unfolding get_object_impl s3_storage
  get_object_no_fallback key world =
      try_primary_fallback-IsFinal m is_no_such_key no_such_key (λ b. b.get_object key)
        (s3_storage c chrono now backend) world is_primary
        (unfold get_object in
          unfold is_no_such_key in
          received-IsFinal is_no_such_key no_such_key _
            (backend.client.get_object backend.bucket key world) refl)

  head_bucket_no_fallback :
      (world : W)
      → head_bucket_impl m order primary_fallback world ≡ head_bucket c chrono now backend world
  unfolding head_bucket_impl s3_storage
  head_bucket_no_fallback world =
      try_primary_fallback-IsFinal m is_no_such_bucket no_such_bucket (λ b. b.head_bucket)
        (s3_storage c chrono now backend) world is_primary
        (unfold head_bucket is_no_such_bucket in
          received-IsFinal is_no_such_bucket no_such_bucket (λ u. u)
            (backend.client.head_bucket backend.bucket world) refl)

  head_object_no_fallback :
      (key : Text) (world : W)
      → head_object_impl m order key primary_fallback world
        ≡ head_object c chrono now backend key world
  unfolding head_object_impl head_object_primary_fallback s3_storage on_result head_object
  head_object_no_fallback key world =
      rw (head_object_primary_fallback, is_primary)
        (outcome (backend.client.head_object backend.bucket key world))
    where
      outcome :
          (r : Tried ObjectOutput × W)
          → on_result
              (received
                (λ e. err no_such_key)
                (λ output. ok (extract_metadata c chrono now key output))
                r)
              (λ a w'. (ok a, w'))
              (λ e w'. elim e [
                | no_such_key ↦ (err no_such_key, w')
                | _ ↦ head_others key (other_backends m) w'
              ])
            ≡ received
                (λ e. err no_such_key)
                (λ output. ok (extract_metadata c chrono now key output))
                r
      outcome (returned a, w) = refl
      outcome (failed e, w) = refl

  -- With an S3 primary, a read in the mode PRIMARY_FALLBACK never falls back: HEAD of the bucket,
  -- HEAD and GET of an object return what the primary returns and leave the world as it does,
  -- whatever error the SDK reports, and whatever the other backends hold.
  pub reads_no_fallback :
      (key : Text) (world : W)
      → (head_bucket_impl m order primary_fallback world ≡ head_bucket c chrono now backend world)
        × (head_object_impl m order key primary_fallback world
            ≡ head_object c chrono now backend key world)
        × (get_object_impl m order key primary_fallback world
            ≡ get_object c chrono now backend key world)
  reads_no_fallback key world = (
    head_bucket_no_fallback world,
    head_object_no_fallback key world,
    get_object_no_fallback key world,
  )
