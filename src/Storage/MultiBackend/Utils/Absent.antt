-- ===== src/Storage/MultiBackend/Utils/Absent.antt =====
-- Reads of backends that all answer that the object is absent.
use replica_t.Common.{
  ℕ, zero, suc, ◌<◌, Text, ◌≡◌, refl, ap, ◌∙◌, none, List, [], ◌∷◌, length, get_elem?-some,
  get_elem?-map, replicate, map, enumerate_from, arith,
}
use replica_t.Types.Error.{S3Error, err, internal_error, no_such_key}
use replica_t.Config.Modes.{ReadMode, primary_only, primary_fallback, best_effort, all_consistent}
use replica_t.Storage.Schedule.{IsSchedule, contains}
use replica_t.Storage.Schedule.Agreed.{AllGive}
use replica_t.Storage.MultiBackend.{MultiBackend}
use replica_t.Storage.MultiBackend.Utils.{
  Operation, on_result, try_primary_fallback, race, race_all_backends, only_succeeded, successes,
  check_etags, verify_all_consistent_etag,
}
use replica_t.Storage.MultiBackend.Utils.Agreed.{primary_gives, on_primary_gives, joined_gives}
use replica_t.Storage.MultiBackend.Utils.Fallback.{head_object_primary_fallback-eq}
use replica_t.Storage.MultiBackend.Reads.{
  is_no_such_key, head_object_impl, head_object, get_object_impl, get_object,
}

-- How a read of `n` backends that lack the object ends.
unfoldable pub absent_error : ℕ → ReadMode → S3Error
absent_error n all_consistent = internal_error (only_succeeded 0 n)
absent_error n mode = no_such_key

module _ {A : Type 0} where
  successes_none :
      (i n : ℕ) (e : S3Error) → successes {A = A} (enumerate_from i (replicate n (err e))) ≡ []
  unfolding successes
  successes_none i zero e = refl
  successes_none i (suc n) e = successes_none (suc i) n e

  check_etags_none :
      (n p : ℕ) (f : A → Text) (e : S3Error)
      → 0 < n
      → check_etags n p f (enumerate_from 0 (replicate n (err e)))
        ≡ err (internal_error (only_succeeded 0 n))
  unfolding check_etags
  check_etags_none n p f e h = rw (successes_none 0 n e) (ground arith)

module _ {W A : Type 0} (m : MultiBackend W) (order : List ℕ) (operation : Operation W A) (w : W)
    (in_bounds : m.primary_index < length m.backends) (s : IsSchedule (length m.backends) order)
    (all : AllGive (map operation m.backends) (err no_such_key) w) where
  try_primary_fallback_absent :
      try_primary_fallback m is_no_such_key no_such_key operation w ≡ (err no_such_key, w)
  unfolding try_primary_fallback is_no_such_key
  try_primary_fallback_absent =
      let (b, e, h) = primary_gives m operation (err no_such_key) w in_bounds all in
      rw (e, try_primary_fallback) (rw (h, on_result))

  verify_all_consistent_etag_absent :
      (f : A → Text)
      → verify_all_consistent_etag m order f operation w
        ≡ (err (internal_error (only_succeeded 0 (length m.backends))), w)
  unfolding verify_all_consistent_etag
  verify_all_consistent_etag_absent f =
      rw (joined_gives m operation (err no_such_key) w in_bounds all order s (λ h. cc)) (
        ap (λ r. (r, w))
          (check_etags_none (length m.backends) m.primary_index f no_such_key (omega arith)))

  race_absent :
      (i : ℕ) (rest : List ℕ)
      → i < length m.backends
      → race is_no_such_key no_such_key (map operation m.backends) none (i ∷ rest) w
        ≡ (err no_such_key, w)
  unfolding race is_no_such_key
  race_absent i rest b =
      let (x, e) = get_elem?-some m.backends i b in
      let t = get_elem?-map operation m.backends i x e in
      rw (t, race) (rw (all i (operation x) t, on_result))

module _ {W A : Type 0} (m : MultiBackend W) (operation : Operation W A) (w : W)
    (in_bounds : m.primary_index < length m.backends)
    (all : AllGive (map operation m.backends) (err no_such_key) w) where
  race_all_backends_absent :
      (order : List ℕ)
      → IsSchedule (length m.backends) order
      → race_all_backends m order is_no_such_key no_such_key operation w ≡ (err no_such_key, w)
  unfolding race_all_backends contains
  race_all_backends_absent [] s = absurd (ground (arith, s.covers 0))
  race_all_backends_absent (i ∷ rest) s =
      race_absent m (i ∷ rest) operation w in_bounds s all i rest (ground (arith, s.covers i))

module _ {W : Type 0} (m : MultiBackend W) (order : List ℕ) (w : W)
    (in_bounds : m.primary_index < length m.backends)
    (s : IsSchedule (length m.backends) order) where
  get_by_mode :
      (key : Text) (mode : ReadMode)
      → AllGive (map (λ b. b.get_object key) m.backends) (err no_such_key) w
      → get_object_impl m order key mode w ≡ (err (absent_error (length m.backends) mode), w)
  unfolding get_object_impl absent_error
  get_by_mode key primary_only all = on_primary_gives m _ (err no_such_key) w in_bounds all
  get_by_mode key primary_fallback all = try_primary_fallback_absent m order _ w in_bounds s all
  get_by_mode key best_effort all = race_all_backends_absent m _ w in_bounds all order s
  get_by_mode key all_consistent all =
      verify_all_consistent_etag_absent m order _ w in_bounds s all (λ result. result.1.etag)

  head_by_mode :
      (key : Text) (mode : ReadMode)
      → AllGive (map (λ b. b.head_object key) m.backends) (err no_such_key) w
      → head_object_impl m order key mode w ≡ (err (absent_error (length m.backends) mode), w)
  unfolding head_object_impl absent_error
  head_by_mode key primary_only all = on_primary_gives m _ (err no_such_key) w in_bounds all
  head_by_mode key primary_fallback all =
      head_object_primary_fallback-eq m key w
      ∙ try_primary_fallback_absent m order _ w in_bounds s all
  head_by_mode key best_effort all = race_all_backends_absent m _ w in_bounds all order s
  head_by_mode key all_consistent all =
      verify_all_consistent_etag_absent m order _ w in_bounds s all (λ metadata. metadata.etag)

  -- Where every backend would answer GET with NoSuchKey and change nothing, a GET changes nothing
  -- and ends with NoSuchKey in every read mode but ALL_CONSISTENT, which ends with an InternalError
  -- that says that no backend succeeded.
  pub get_object_absent :
      (key : Text)
      → AllGive (map (λ b. b.get_object key) m.backends) (err no_such_key) w
      → get_object m order key w ≡ (err (absent_error (length m.backends) m.read_mode), w)
  unfolding get_object
  get_object_absent key gets = get_by_mode key m.read_mode gets

  -- A HEAD of such backends ends alike.
  pub head_object_absent :
      (key : Text)
      → AllGive (map (λ b. b.head_object key) m.backends) (err no_such_key) w
      → head_object m order key w ≡ (err (absent_error (length m.backends) m.read_mode), w)
  unfolding head_object
  head_object_absent key heads = head_by_mode key m.read_mode heads
