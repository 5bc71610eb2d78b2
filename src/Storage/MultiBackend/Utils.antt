-- ===== src/Storage/MultiBackend/Utils.antt =====
-- storage/multi_backend/utils.rs: the four ways to read from the backends.
pub mod Absent
pub mod Agreed
pub mod Consistent
pub mod Fallback
pub mod Race
pub mod Succeed
use replica_t.Common.{
  ℕ, Text, text, decimal, text_eq, Bool, true, false, not, ◌==◌, Option, none, some, List, [], ◌∷◌,
  ◌++◌, map, get_elem?, length, if◌then◌else◌,
}
use replica_t.Types.Error.{Result, S3Error, ok, err, panic, internal_error, ◌>>=◌}
use replica_t.Storage.Backend.{Call, StorageBackend}
use replica_t.Storage.Schedule.{join_all}
use replica_t.Storage.MultiBackend.{MultiBackend, primary, other_backends}

-- An operation on one backend, as the helpers take it.
abbrev pub Operation : Type 0 → Type 0 → Type 0
Operation W A = StorageBackend W → Call W A

abbrev pub unwrap_or {ℓ} : {A : Type ℓ} → Option A → A → A
unwrap_or none d = d
unwrap_or (some a) d = a

module _ {W A : Type 0} where
  -- The rest of a function after an awaited call.
  unfoldable pub on_result :
      Result A × W → (A → W → Result A × W) → (S3Error → W → Result A × W) → Result A × W
  on_result (ok a, w) on_ok on_err = on_ok a w
  on_result (err e, w) on_ok on_err = on_err e w
  on_result (panic, w) on_ok on_err = (panic, w)

  -- The loop over the fallback backends: the first success returns, and errors are only logged.
  unfoldable pub try_others : S3Error → Operation W A → List (StorageBackend W) → Call W A
  unfolding on_result
  try_others not_found_error operation [] w = (err not_found_error, w)
  try_others not_found_error operation (b ∷ bs) w =
      on_result (operation b w) (λ a w'. (ok a, w')) (λ e. try_others not_found_error operation bs)

  unfoldable pub try_primary_fallback :
      MultiBackend W → (S3Error → Bool) → S3Error → Operation W A → Call W A
  unfolding try_others primary
  try_primary_fallback m is_not_found_error not_found_error operation w = elim (primary m) [
    | none ↦ (panic, w)
    | some b ↦
        on_result (operation b w) (λ a w'. (ok a, w'))
          λ e w'.
            if is_not_found_error e
            then (err e, w')
            else try_others not_found_error operation (other_backends m) w'
  ]

  -- The loop of the race, over the calls in the order in which they complete. What is decisive, a
  -- success or a "not found", drops the calls that have not completed.
  unfoldable pub race :
      (S3Error → Bool) → S3Error → List (Call W A) → Option S3Error → List ℕ → Call W A
  unfolding on_result
  race is_not_found_error not_found_error tasks last_error [] w =
      (err (unwrap_or last_error not_found_error), w)
  race is_not_found_error not_found_error tasks last_error (i ∷ order) w =
      elim (get_elem? tasks i) [
        | none ↦ race is_not_found_error not_found_error tasks last_error order w
        | some task ↦
            on_result (task w) (λ a w'. (ok a, w'))
              λ e w'.
                let rest = race is_not_found_error not_found_error tasks (some e) order w' in
                if is_not_found_error e then (err e, w') else rest
      ]

  unfoldable pub race_all_backends :
      MultiBackend W → List ℕ → (S3Error → Bool) → S3Error → Operation W A → Call W A
  unfolding race
  race_all_backends m order is_not_found_error not_found_error operation =
      race is_not_found_error not_found_error (map operation m.backends) none order

unfoldable pub only_succeeded : ℕ → ℕ → Text
only_succeeded k n =
    text "Consistency check failed: only "
    ++ (decimal k ++ (text "/" ++ (decimal n ++ text " backends succeeded")))

unfoldable pub etags_differ : Text
etags_differ = text "Consistency check failed: ETag mismatch between backends"

unfoldable pub backend_failed : ℕ → Text
backend_failed i = text "Consistency check failed: backend " ++ (decimal i ++ text " failed")

module _ {A : Type 0} where
  -- `successful_results` of the loop that logs the failures.
  unfoldable pub successes : List (ℕ × Result A) → List (ℕ × A)
  successes [] = []
  successes ((i, ok a) ∷ results) = (i, a) ∷ successes results
  successes ((i, r) ∷ results) = successes results

  -- The loop over the ETags: `true` where one differs from the primary's.
  unfoldable pub etag_mismatch : (A → Text) → Text → List (ℕ × A) → Bool
  etag_mismatch extract_etag primary_etag [] = false
  etag_mismatch extract_etag primary_etag ((i, a) ∷ results) =
      let rest = etag_mismatch extract_etag primary_etag results in
      if not (text_eq (extract_etag a) primary_etag) then true else rest

  -- The primary's result, if every result has its ETag; an index out of bounds panics.
  unfoldable pub compare_etags : (A → Text) → List (ℕ × A) → Option (ℕ × A) → Result A
  unfolding etag_mismatch
  compare_etags extract_etag oks none = panic
  compare_etags extract_etag oks (some (i, a)) =
      if etag_mismatch extract_etag (extract_etag a) oks
      then err (internal_error etags_differ)
      else ok a

  -- What `verify_all_consistent_etag` makes of the results: all must have succeeded, with the
  -- primary's ETag. (`join_all` has passed a panic on, so no result is one.)
  unfoldable pub check_etags : ℕ → ℕ → (A → Text) → List (ℕ × Result A) → Result A
  unfolding successes compare_etags
  check_etags n primary_index extract_etag results =
      let oks = successes results in
      if not (length oks == n)
      then err (internal_error (only_succeeded (length oks) n))
      else compare_etags extract_etag oks (get_elem? oks primary_index)

  -- The loop of `verify_all_succeed`; the `unwrap` at its end panics without a primary result.
  unfoldable pub check_succeeded : ℕ → Option A → List (ℕ × Result A) → Result A
  check_succeeded primary_index none [] = panic
  check_succeeded primary_index (some a) [] = ok a
  check_succeeded primary_index primary_result ((i, ok a) ∷ results) =
      check_succeeded primary_index (if i == primary_index then some a else primary_result) results
  check_succeeded primary_index primary_result ((i, err e) ∷ results) =
      err (internal_error (backend_failed i))
  check_succeeded primary_index primary_result ((i, panic) ∷ results) = panic

module _ {W A : Type 0} where
  unfoldable pub verify_all_consistent_etag :
      MultiBackend W → List ℕ → (A → Text) → Operation W A → Call W A
  unfolding check_etags
  verify_all_consistent_etag m order extract_etag operation w =
      let (results, w') = join_all (map operation m.backends) order w in
      (results >>= check_etags (length m.backends) m.primary_index extract_etag, w')

  unfoldable pub verify_all_succeed : MultiBackend W → List ℕ → Operation W A → Call W A
  unfolding check_succeeded
  verify_all_succeed m order operation w =
      let (results, w') = join_all (map operation m.backends) order w in
      (results >>= check_succeeded m.primary_index none, w')
