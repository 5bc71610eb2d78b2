-- ===== src/Storage/Schedule.antt =====
-- Concurrent calls as the `futures` crate runs them. A schedule lists the indices of the calls in
-- the order in which they complete; a call takes effect at its completion.
pub mod Agreed
pub mod Each
pub mod Joined
pub mod Spawned
use replica_t.Common.{
  ℕ, zero, suc, ◌≡◌, Bool, false, ◌||◌, ◌==◌, ltb, Option, none, some, List, [], ◌∷◌, get_elem?,
  length, if◌then◌else◌,
}
use replica_t.Types.Error.{Result, ok, panic, map_result}
use replica_t.Storage.Backend.{Call}

unfoldable pub contains : ℕ → List ℕ → Bool
contains i [] = false
contains i (j ∷ order) = j == i || contains i order

abbrev pub IsOnce : List ℕ → Type 0
IsOnce [] = Unit
IsOnce (i ∷ order) = (contains i order ≡ false) × IsOnce order

-- Every call below `n` completes, once.
pub record IsSchedule (n : ℕ) (order : List ℕ) : Type 0 where
  pub covers : (i : ℕ) → contains i order ≡ ltb i n
  pub once : IsOnce order

module _ {A : Type 0} where
  unfoldable pub find_result : ℕ → List (ℕ × Result A) → Option (Result A)
  find_result i [] = none
  find_result i ((j, r) ∷ done) = if j == i then some r else find_result i done

  -- The results of the calls from `i` on, in the order of the calls.
  unfoldable pub in_order : ℕ → ℕ → List (ℕ × Result A) → List (ℕ × Result A)
  unfolding find_result
  in_order i zero done = []
  in_order i (suc n) done = elim (find_result i done) [
    | none ↦ in_order (suc i) n done
    | some r ↦ (i, r) ∷ in_order (suc i) n done
  ]

module _ {W A : Type 0} where
  -- What is known when a call has completed: a panic unwinds through the joining task at once.
  unfoldable pub record_result :
      ℕ → Result A × W → (W → Result (List (ℕ × Result A)) × W) → Result (List (ℕ × Result A)) × W
  record_result i (panic, w) rest = (panic, w)
  record_result i (r, w) rest = let (rs, w') = rest w in (map_result (◌∷◌ (i, r)) rs, w')

  -- The calls run to their ends in the order of the schedule.
  unfoldable pub complete : List (Call W A) → List ℕ → Call W (List (ℕ × Result A))
  unfolding record_result
  complete tasks [] w = (ok [], w)
  complete tasks (i ∷ order) w = elim (get_elem? tasks i) [
    | none ↦ complete tasks order w
    | some task ↦ record_result i (task w) (complete tasks order)
  ]

  unfoldable pub order_results : ℕ → Call W (List (ℕ × Result A)) → Call W (List (ℕ × Result A))
  order_results n run w = let (done, w') = run w in (map_result (in_order zero n) done, w')

  -- `join_all` of calls that each return their index with their result: all complete, and the
  -- results come in the order of the calls.
  unfoldable pub join_all : List (Call W A) → List ℕ → Call W (List (ℕ × Result A))
  unfolding complete in_order order_results
  join_all tasks order = order_results (length tasks) (complete tasks order)

  -- The same for spawned tasks: a panic ends its own task alone, and the awaiting task is told.
  unfoldable pub complete_spawned : List (Call W A) → List ℕ → W → List (ℕ × Result A) × W
  complete_spawned tasks [] w = ([], w)
  complete_spawned tasks (i ∷ order) w = elim (get_elem? tasks i) [
    | none ↦ complete_spawned tasks order w
    | some task ↦
        let (r, w1) = task w in
        let (done, w2) = complete_spawned tasks order w1 in ((i, r) ∷ done, w2)
  ]

  -- The handles of all tasks awaited in turn.
  unfoldable pub join_spawned : List (Call W A) → List ℕ → W → List (ℕ × Result A) × W
  unfolding complete_spawned in_order
  join_spawned tasks order w =
      let (done, w') = complete_spawned tasks order w in (in_order 0 (length tasks) done, w')
