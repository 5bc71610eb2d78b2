-- ===== src/Storage/Schedule/Spawned.antt =====
-- What `join_spawned` returns, whatever the schedule.
use replica_t.Common.{
  ℕ, ◌≡◌, refl, inl, inr, true, ◌<◌, some, List, [], ◌∷◌, length, get_elem?, get_elem?-some,
  enumerate_from, arith, Option-cases, Bool-cases, ◌==◌,
}
use replica_t.Types.Error.{Result}
use replica_t.Storage.Backend.{Call}
use replica_t.Storage.Schedule.{contains, IsSchedule, complete_spawned, find_result, join_spawned}
use replica_t.Storage.Schedule.Joined.{in_order-enumerate_from}

module _ {W A : Type 0} (tasks : List (Call W A)) where
  -- A task that completes leaves its result.
  complete_spawned-find_result :
      (order : List ℕ) (w : W) (i : ℕ)
      → contains i order ≡ true
      → i < length tasks
      → (r : Result A) × (find_result i (complete_spawned tasks order w).0 ≡ some r)
  unfolding contains find_result complete_spawned
  complete_spawned-find_result [] w i c b = absurd (ground arith)
  complete_spawned-find_result (j ∷ order) w i c b = elim (Option-cases (get_elem? tasks j)) [
    | inl e ↦
        let (task, t) = get_elem?-some tasks i b in
        let (r, f) = complete_spawned-find_result order w i (ground (arith, c, t, e)) b in
        (r, rw (e, complete_spawned) f)
    | inr (task, e) ↦ elim (Bool-cases (j == i)) [
      | inl same ↦ ((task w).0, rw (e, complete_spawned) (rw same refl))
      | inr other ↦
          let (r, f) =
            complete_spawned-find_result order (task w).1 i (ground (arith, c, other)) b in
          (r, rw (e, complete_spawned) (rw other f))
    ]
  ]

  -- Under a schedule of all the tasks, awaiting them gives one result for each, with its index, in
  -- the order of the tasks.
  pub join_spawned-enumerate_from :
      (order : List ℕ) (w : W)
      → IsSchedule (length tasks) order
      → (answers : List (Result A)) × ((join_spawned tasks order w).0 ≡ enumerate_from 0 answers)
        × (length answers ≡ length tasks)
  unfolding join_spawned
  join_spawned-enumerate_from order w s =
      in_order-enumerate_from 0 (length tasks) (complete_spawned tasks order w).0 λ j above below.
        complete_spawned-find_result order w j (rw s.covers (ground arith)) (omega arith)
