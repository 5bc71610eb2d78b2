-- ===== src/Storage/MultiBackend/ListObjects.antt =====
-- storage/multi_backend/list_objects.rs: the listing by read mode.
pub mod Agreed
pub mod Consistent
use replica_t.Common.{
  ℕ, ℤ, Text, text, text_eq, false, not, ◌==◌, Option, none, some, List, [], ◌∷◌, map, get_elem?,
  length, if◌then◌else◌,
}
use replica_t.Config.Modes.{ReadMode, primary_only, primary_fallback, best_effort, all_consistent}
use replica_t.Types.Error.{Result, S3Error, ok, err, panic, internal_error, ◌>>=◌}
use replica_t.Types.Models.{ObjectMetadata}
use replica_t.Storage.Backend.{Call}
use replica_t.Storage.HashMap.{HashMap, get, insert}
use replica_t.Storage.Schedule.{join_all}
use replica_t.Storage.MultiBackend.{MultiBackend, primary, other_backends}
use replica_t.Storage.MultiBackend.Utils.{
  on_result, try_others, race_all_backends, only_succeeded, backend_failed,
}
use replica_t.Storage.MultiBackend.Reads.{on_primary}

unfoldable pub all_failed : S3Error
all_failed = internal_error (text "All backends failed")

unfoldable pub different_number : Text
different_number = text "Consistency check failed: different number of objects"

unfoldable pub etag_mismatch_in_list : Text
etag_mismatch_in_list = text "Consistency check failed: ETag mismatch"

unfoldable pub different_objects : Text
different_objects = text "Consistency check failed: different objects"

-- The loop that keeps the lists, and returns at the first failure.
unfoldable pub collect_lists :
    List (ℕ × Result (List ObjectMetadata)) → Result (List (ℕ × List ObjectMetadata))
collect_lists [] = ok []
collect_lists ((i, ok objects) ∷ results) = do
  rest ← collect_lists results
  ok ((i, objects) ∷ rest)
collect_lists ((i, err e) ∷ results) = err (internal_error (backend_failed i))
collect_lists ((i, panic) ∷ results) = panic

-- `.map(|obj| (&obj.key, &obj.etag)).collect()`: of two entries for a key the later one stays.
unfoldable pub etags_by_key : HashMap Text → List ObjectMetadata → HashMap Text
etags_by_key m [] = m
etags_by_key m (obj ∷ objects) = etags_by_key (insert obj.key obj.etag m) objects

-- Each object of another backend against the primary's map.
unfoldable pub check_objects : HashMap Text → List ObjectMetadata → Result (Unit {0})
check_objects primary_map [] = ok tt
check_objects primary_map (obj ∷ objects) =
    let rest = check_objects primary_map objects in
    elim (get obj.key primary_map) [
      | none ↦ err (internal_error different_objects)
      | some primary_etag ↦
          if not (text_eq obj.etag primary_etag)
          then err (internal_error etag_mismatch_in_list)
          else rest
    ]

-- The loop over the lists, which skips the primary's.
unfoldable pub check_lists :
    ℕ → List ObjectMetadata → List (ℕ × List ObjectMetadata) → Result (Unit {0})
unfolding check_objects etags_by_key
check_lists primary_index primary_list [] = ok tt
check_lists primary_index primary_list ((i, objects) ∷ lists) =
    let rest = check_lists primary_index primary_list lists in
    if i == primary_index
    then rest
    else if not (length objects == length primary_list)
    then err (internal_error different_number)
    else (check_objects (etags_by_key [] primary_list) objects >>= λ _. rest)

-- From "all backends must succeed" on.
unfoldable pub check_all_lists :
    ℕ → ℕ → List (ℕ × List ObjectMetadata) → Result (List ObjectMetadata)
unfolding check_lists
check_all_lists n primary_index all_lists =
    if not (length all_lists == n)
    then err (internal_error (only_succeeded (length all_lists) n))
    else elim (get_elem? all_lists primary_index) [
      | none ↦ panic
      | some (i, primary_list) ↦
          check_lists primary_index primary_list all_lists >>= λ _. ok primary_list
    ]

module _ {W : Type 0} where
  -- Any error of the primary leads to the other backends.
  unfoldable pub list_objects_primary_fallback :
      MultiBackend W → Option Text → ℤ → Call W (List ObjectMetadata)
  list_objects_primary_fallback m prefix max_keys w = elim (primary m) [
    | none ↦ (panic, w)
    | some b ↦
        on_result (b.list_objects prefix max_keys w) (λ a w'. (ok a, w'))
          λ e. try_others all_failed (λ b. b.list_objects prefix max_keys) (other_backends m)
  ]

  unfoldable pub list_objects_all_consistent :
      MultiBackend W → List ℕ → Option Text → ℤ → Call W (List ObjectMetadata)
  unfolding collect_lists check_all_lists
  list_objects_all_consistent m order prefix max_keys w =
      let (results, w') = join_all (map (λ b. b.list_objects prefix max_keys) m.backends) order w in
      (
        results >>= λ rs. collect_lists rs >>= check_all_lists (length m.backends) m.primary_index,
        w',
      )

  unfoldable pub list_objects_impl :
      MultiBackend W → List ℕ → Option Text → ℤ → ReadMode → Call W (List ObjectMetadata)
  unfolding list_objects_primary_fallback list_objects_all_consistent
  list_objects_impl m order prefix max_keys primary_only =
      on_primary m (λ b. b.list_objects prefix max_keys)
  list_objects_impl m order prefix max_keys primary_fallback =
      list_objects_primary_fallback m prefix max_keys
  list_objects_impl m order prefix max_keys best_effort =
      race_all_backends m order (λ _. false) all_failed (λ b. b.list_objects prefix max_keys)
  list_objects_impl m order prefix max_keys all_consistent =
      list_objects_all_consistent m order prefix max_keys

  unfoldable pub list_objects :
      MultiBackend W → List ℕ → Option Text → ℤ → Call W (List ObjectMetadata)
  unfolding list_objects_impl
  list_objects m order prefix max_keys = list_objects_impl m order prefix max_keys m.read_mode
