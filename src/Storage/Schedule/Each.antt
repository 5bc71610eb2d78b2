-- ===== src/Storage/Schedule/Each.antt =====
-- Joined calls that leave the world as it is, each with an answer of its own.
use replica_t.Common.{
  ℕ, zero, suc, ◌+◌, ◌≤◌, ◌<◌, ◌≡◌, ◌≢◌, refl, ap, ◌∙◌, true, some, List, [], ◌∷◌, map, length,
  get_elem?, get_elem?-some, enumerate_from, All, arith, Bool-cases, inl, inr, ◌==◌, ==_iff,
}
use replica_t.Types.Error.{Result, ok, panic}
use replica_t.Storage.Backend.{Call}
use replica_t.Storage.Schedule.{
  contains, IsSchedule, complete, find_result, in_order, order_results, join_all,
}
use replica_t.Storage.Schedule.Agreed.{record_returned}

-- The values of `f` from `i` on.
unfoldable pub tabulate : {A : Type 0} → (ℕ → A) → ℕ → ℕ → List A
tabulate f i zero = []
tabulate f i (suc n) = f i ∷ tabulate f (suc i) n

module _ {A : Type 0} (f : ℕ → A) where
  pub length-tabulate : (i n : ℕ) → length (tabulate f i n) ≡ n
  unfolding tabulate
  length-tabulate i zero = refl
  length-tabulate i (suc n) = ap suc (length-tabulate (suc i) n)

  pub get_elem?-tabulate : (i n k : ℕ) → k < n → get_elem? (tabulate f i n) k ≡ some (f (i + k))
  unfolding tabulate
  get_elem?-tabulate i zero k h = absurd (omega arith)
  get_elem?-tabulate i (suc n) zero h = ap (λ j. some (f j)) (omega arith)
  get_elem?-tabulate i (suc n) (suc k) h =
      get_elem?-tabulate (suc i) n k (omega arith) ∙ ap (λ j. some (f j)) (omega arith)

  pub All-tabulate : (P : A → Type 0) (i n : ℕ) → ((k : ℕ) → P (f k)) → All P (tabulate f i n)
  unfolding tabulate
  All-tabulate P i zero h = tt
  All-tabulate P i (suc n) h = (h i, All-tabulate P (suc i) n h)

  pub map-tabulate :
      {B : Type 0} (g : A → B) (i n : ℕ) → map g (tabulate f i n) ≡ tabulate (λ k. g (f k)) i n
  unfolding tabulate
  map-tabulate g i zero = refl
  map-tabulate g i (suc n) = ap (◌∷◌ (g (f i))) (map-tabulate g (suc i) n)

in_order-tabulate :
    {A : Type 0} (r : ℕ → Result A) (i n : ℕ) (done : List (ℕ × Result A))
    → ((j : ℕ) → i ≤ j → j < i + n → find_result j done ≡ some (r j))
    → in_order i n done ≡ enumerate_from i (tabulate r i n)
unfolding in_order tabulate
in_order-tabulate r i zero done h = refl
in_order-tabulate r i (suc n) done h =
    rw (h i (omega arith) (omega arith), in_order)
      (ap (◌∷◌ (i, r i))
        (in_order-tabulate r (suc i) n done λ j above below. h j (omega arith) (omega arith)))

module _ {W A : Type 0} (tasks : List (Call W A)) (r : ℕ → Result A) (w : W)
    (each : (i : ℕ) (task : Call W A) → get_elem? tasks i ≡ some task → task w ≡ (r i, w))
    (returns : (i : ℕ) → r i ≢ panic) where
  complete_each :
      (order : List ℕ)
      → ((i : ℕ) → contains i order ≡ true → i < length tasks)
      → (done : List (ℕ × Result A)) × (complete tasks order w ≡ (ok done, w))
        × ((i : ℕ) → contains i order ≡ true → find_result i done ≡ some (r i))
  unfolding complete contains find_result
  complete_each [] b = ([], refl, λ i c. ground (arith, c))
  complete_each (i ∷ order) b =
      let (task, t) = get_elem?-some tasks i (b i (ground arith)) in
      let (done, e, f) = complete_each order (λ j c. b j (ground (arith, c))) in
      (
        (i, r i) ∷ done,
        rw (t, complete)
            (rw (each i task t)
              (rw (record_returned i (r i) w (complete tasks order) (returns i)) (rw e))),
        λ j c. elim (Bool-cases (i == j)) [
          | inl same ↦ rw same (ap (λ k. some (r k)) ((==_iff i j).0 same))
          | inr other ↦ rw other (f j (ground (arith, c, other)))
        ],
      )

  -- Whatever the schedule, joining the calls returns the answer of each, in a world as before.
  pub join_all_each :
      (order : List ℕ)
      → IsSchedule (length tasks) order
      → join_all tasks order w ≡ (ok (enumerate_from 0 (tabulate r 0 (length tasks))), w)
  unfolding join_all
  join_all_each order s =
      let (done, e, f) = complete_each order (λ i c. ground (arith, s.covers i, c)) in
      rw (e, order_results)
        (rw (
          in_order-tabulate r 0 (length tasks) done
            λ j above below. f j (rw s.covers (ground arith))))
