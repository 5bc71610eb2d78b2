-- ===== src/Storage/MultiBackend/Utils/Agreed.antt =====
-- Reads of backends that all give one answer: every way to read returns it.
use replica_t.Common.{
  ℕ, zero, suc, ◌+◌, ◌≤◌, ◌<◌, Text, ◌≡◌, ◌≢◌, refl, sym, ap, ◌∙◌, Bool, ◌==◌, none, some, List, [],
  ◌∷◌, map, length, length-map, replicate, length-replicate, map-replicate, All-replicate,
  get_elem?-some, get_elem?-map, get_elem?-replicate, enumerate_from, arith, Bool-cases, inl, inr,
}
use replica_t.Types.Error.{Result, S3Error, ok, panic, no_such_key, no_such_bucket}
use replica_t.Config.Modes.{ReadMode, primary_only, primary_fallback, best_effort, all_consistent}
use replica_t.Types.Models.{ObjectMetadata}
use replica_t.Storage.Backend.{ObjectStream, StorageBackend}
use replica_t.Storage.Schedule.{IsSchedule, contains, join_all}
use replica_t.Storage.Schedule.Agreed.{AllGive, AllAnswer, join_all_agreed}
use replica_t.Storage.MultiBackend.{MultiBackend, primary}
use replica_t.Storage.MultiBackend.Utils.{
  Operation, on_result, try_primary_fallback, race, race_all_backends, check_succeeded,
  verify_all_succeed, verify_all_consistent_etag,
}
use replica_t.Storage.MultiBackend.Utils.Consistent.{verify_all_consistent_etag-ok_iff}
use replica_t.Storage.MultiBackend.Reads.{
  on_primary, is_no_such_key, is_no_such_bucket, head_bucket_impl, head_bucket, head_object_impl,
  head_object, get_object_impl, get_object,
}
use replica_t.Storage.MultiBackend.Utils.Fallback.{head_object_primary_fallback-eq}

module _ {A : Type 0} where
  check_succeeded_found :
      (p : ℕ) (a : A) (i n : ℕ)
      → check_succeeded p (some a) (enumerate_from i (replicate n (ok a))) ≡ ok a
  unfolding check_succeeded
  check_succeeded_found p a i zero = refl
  check_succeeded_found p a i (suc n) = ground (arith, check_succeeded_found p a (suc i) n)

  check_succeeded_agreed :
      (p : ℕ) (a : A) (i n : ℕ)
      → i ≤ p
      → p < i + n
      → check_succeeded p none (enumerate_from i (replicate n (ok a))) ≡ ok a
  unfolding check_succeeded
  check_succeeded_agreed p a i zero h k = absurd (omega arith)
  check_succeeded_agreed p a i (suc n) h k = elim (Bool-cases (i == p)) [
    | inl e ↦ rw (e, check_succeeded) (check_succeeded_found p a (suc i) n)
    | inr e ↦
        rw (e, check_succeeded) (check_succeeded_agreed p a (suc i) n (ground arith) (omega arith))
  ]

module _ {W A : Type 0} (m : MultiBackend W) (operation : Operation W A) (r : Result A) (w : W)
    (in_bounds : m.primary_index < length m.backends)
    (all : AllGive (map operation m.backends) r w) where
  pub primary_gives : (b : StorageBackend W) × (primary m ≡ some b) × (operation b w ≡ (r, w))
  unfolding primary
  primary_gives =
      let (b, e) = get_elem?-some m.backends m.primary_index in_bounds in
      (
        b,
        e,
        all m.primary_index (operation b) (get_elem?-map operation m.backends m.primary_index b e),
      )

  pub on_primary_gives : on_primary m operation w ≡ (r, w)
  unfolding on_primary
  on_primary_gives = let (b, e, h) = primary_gives in rw (e, on_primary) h

  -- The joined calls of all backends.
  pub joined_gives :
      (order : List ℕ)
      → IsSchedule (length m.backends) order
      → r ≢ panic
      → join_all (map operation m.backends) order w
        ≡ (ok (enumerate_from 0 (replicate (length m.backends) r)), w)
  joined_gives order s returns =
      let n = length-map operation m.backends in
      join_all_agreed (map operation m.backends) r w all returns order (rw n s)
      ∙ ap (λ k. (ok (enumerate_from 0 (replicate k r)), w)) n

module _ {W A : Type 0} (m : MultiBackend W) (order : List ℕ) (operation : Operation W A) (a : A)
    (w : W) (in_bounds : m.primary_index < length m.backends)
    (s : IsSchedule (length m.backends) order)
    (all : AllAnswer (map operation m.backends) a w) where
  pub try_primary_fallback_agreed :
      (nf : S3Error → Bool) (d : S3Error) → try_primary_fallback m nf d operation w ≡ (ok a, w)
  unfolding try_primary_fallback
  try_primary_fallback_agreed nf d =
      let (b, e, h) = primary_gives m operation (ok a) w in_bounds all in
      rw (e, try_primary_fallback) (rw (h, on_result))

  race_agreed :
      (nf : S3Error → Bool) (d : S3Error) (i : ℕ) (rest : List ℕ)
      → i < length m.backends
      → race nf d (map operation m.backends) none (i ∷ rest) w ≡ (ok a, w)
  unfolding race
  race_agreed nf d i rest b =
      let (x, e) = get_elem?-some m.backends i b in
      let t = get_elem?-map operation m.backends i x e in
      rw (t, race) (rw (all i (operation x) t, on_result))

  joined :
      join_all (map operation m.backends) order w
      ≡ (ok (enumerate_from 0 (replicate (length m.backends) (ok a))), w)
  joined = joined_gives m operation (ok a) w in_bounds all order s (λ h. cc)

  pub verify_all_succeed_agreed : verify_all_succeed m order operation w ≡ (ok a, w)
  unfolding verify_all_succeed
  verify_all_succeed_agreed = rw joined (
      rw (
        check_succeeded_agreed m.primary_index a 0 (length m.backends) (omega arith) (omega arith)))

  consistent_world : (f : A → Text) → (verify_all_consistent_etag m order f operation w).1 ≡ w
  unfolding verify_all_consistent_etag
  consistent_world f = ap (λ out. out.1) joined

  consistent_answer : (f : A → Text) → (verify_all_consistent_etag m order f operation w).0 ≡ ok a
  consistent_answer f =
      let n = length m.backends in
      (verify_all_consistent_etag-ok_iff m order f operation w a s).1 (
        replicate n a,
        ap (λ out. out.0) joined ∙ ap (λ l. ok (enumerate_from 0 l)) (sym (map-replicate ok n a)),
        length-replicate n a,
        (
          get_elem?-replicate n m.primary_index a in_bounds,
          All-replicate (λ b. f b ≡ f a) n a refl,
        ),
      )

  pub verify_all_consistent_etag_agreed :
      (f : A → Text) → verify_all_consistent_etag m order f operation w ≡ (ok a, w)
  verify_all_consistent_etag_agreed f = λ i. (consistent_answer f i, consistent_world f i)

module _ {W A : Type 0} (m : MultiBackend W) (operation : Operation W A) (a : A) (w : W)
    (in_bounds : m.primary_index < length m.backends)
    (all : AllAnswer (map operation m.backends) a w) where
  pub race_all_backends_agreed :
      (nf : S3Error → Bool) (d : S3Error) (order : List ℕ)
      → IsSchedule (length m.backends) order
      → race_all_backends m order nf d operation w ≡ (ok a, w)
  unfolding race_all_backends contains
  race_all_backends_agreed nf d [] s = absurd (ground (arith, s.covers 0))
  race_all_backends_agreed nf d (i ∷ rest) s =
      race_agreed m (i ∷ rest) operation a w in_bounds s all nf d i rest
        (ground (arith, s.covers i))

module _ {W : Type 0} (m : MultiBackend W) (order : List ℕ) (w : W)
    (in_bounds : m.primary_index < length m.backends)
    (s : IsSchedule (length m.backends) order) where
  get_by_mode :
      (key : Text) (a : ObjectStream × ObjectMetadata)
      → AllAnswer (map (λ b. b.get_object key) m.backends) a w
      → (mode : ReadMode) → get_object_impl m order key mode w ≡ (ok a, w)
  unfolding get_object_impl
  get_by_mode key a all primary_only = on_primary_gives m _ (ok a) w in_bounds all
  get_by_mode key a all primary_fallback =
      try_primary_fallback_agreed m order _ a w in_bounds s all is_no_such_key no_such_key
  get_by_mode key a all best_effort =
      race_all_backends_agreed m _ a w in_bounds all is_no_such_key no_such_key order s
  get_by_mode key a all all_consistent =
      verify_all_consistent_etag_agreed m order _ a w in_bounds s all (λ result. result.1.etag)

  -- Where every backend would answer GET with one stream and one metadata and change nothing, a
  -- GET returns just that, in every read mode and under every schedule of all the calls, and
  -- changes nothing. The primary index is in bounds.
  pub get_object_agreed :
      (key : Text) (a : ObjectStream × ObjectMetadata)
      → AllAnswer (map (λ b. b.get_object key) m.backends) a w
      → get_object m order key w ≡ (ok a, w)
  unfolding get_object
  get_object_agreed key a all = get_by_mode key a all m.read_mode

  head_by_mode :
      (key : Text) (a : ObjectMetadata)
      → AllAnswer (map (λ b. b.head_object key) m.backends) a w
      → (mode : ReadMode) → head_object_impl m order key mode w ≡ (ok a, w)
  unfolding head_object_impl
  head_by_mode key a all primary_only = on_primary_gives m _ (ok a) w in_bounds all
  head_by_mode key a all primary_fallback =
      head_object_primary_fallback-eq m key w
      ∙ try_primary_fallback_agreed m order _ a w in_bounds s all is_no_such_key no_such_key
  head_by_mode key a all best_effort =
      race_all_backends_agreed m _ a w in_bounds all is_no_such_key no_such_key order s
  head_by_mode key a all all_consistent =
      verify_all_consistent_etag_agreed m order _ a w in_bounds s all (λ metadata. metadata.etag)

  -- Where every backend would answer HEAD with one metadata and change nothing, a HEAD returns just
  -- that, in every read mode and under every schedule of all the calls, and changes nothing. The
  -- primary index is in bounds.
  pub head_object_agreed :
      (key : Text) (a : ObjectMetadata)
      → AllAnswer (map (λ b. b.head_object key) m.backends) a w
      → head_object m order key w ≡ (ok a, w)
  unfolding head_object
  head_object_agreed key a all = head_by_mode key a all m.read_mode

  head_bucket_by_mode :
      AllAnswer (map (λ b. b.head_bucket) m.backends) tt w
      → (mode : ReadMode) → head_bucket_impl m order mode w ≡ (ok tt, w)
  unfolding head_bucket_impl
  head_bucket_by_mode all primary_only = on_primary_gives m _ (ok tt) w in_bounds all
  head_bucket_by_mode all primary_fallback =
      try_primary_fallback_agreed m order _ tt w in_bounds s all is_no_such_bucket no_such_bucket
  head_bucket_by_mode all best_effort =
      race_all_backends_agreed m _ tt w in_bounds all is_no_such_bucket no_such_bucket order s
  head_bucket_by_mode all all_consistent = verify_all_succeed_agreed m order _ tt w in_bounds s all

  -- Where every backend would answer that the bucket is there, so does a HEAD of the bucket, in
  -- every read mode.
  pub head_bucket_agreed :
      AllAnswer (map (λ b. b.head_bucket) m.backends) tt w → head_bucket m order w ≡ (ok tt, w)
  unfolding head_bucket
  head_bucket_agreed all = head_bucket_by_mode all m.read_mode
