-- ===== src/Storage/Schedule/Joined.antt =====
-- What `join_all` returns, whatever the schedule.
use replica_t.Common.{
  ℕ, zero, suc, ◌+◌, ◌≤◌, ◌<◌, ◌≡◌, refl, ap, ◌⊎◌, inl, inr, ◌≢◌, true, ◌==◌, none, some, List, [],
  ◌∷◌, length, get_elem?, get_elem?-some, enumerate_from, arith, Option-cases, Bool-cases,
}
use replica_t.Types.Error.{Result, S3Error, ok, err, panic, map_result}
use replica_t.Storage.Backend.{Call}
use replica_t.Storage.Schedule.{
  contains, IsSchedule, record_result, complete, find_result, in_order, join_all,
}

module _ {A : Type 0} where
  pub in_order-enumerate_from :
      (i n : ℕ) (done : List (ℕ × Result A))
      → ((j : ℕ) → i ≤ j → j < i + n → (r : Result A) × (find_result j done ≡ some r))
      → (answers : List (Result A)) × (in_order i n done ≡ enumerate_from i answers)
        × (length answers ≡ n)
  unfolding in_order
  in_order-enumerate_from i zero done found = ([], refl, refl)
  in_order-enumerate_from i (suc n) done found =
      let (r, e) = found i (omega arith) (omega arith) in
      let (answers, f, l) =
        in_order-enumerate_from (suc i) n done
          (λ j above below. found j (omega arith) (omega arith)) in
      (r ∷ answers, rw (e, in_order) (ap (◌∷◌ (i, r)) f), ap suc l)

pub map_result-eq-ok {ℓ κ} :
    {A : Type ℓ} {B : Type κ} (f : A → B) (r : Result A) {b : B}
    → map_result f r ≡ ok b
    → (a : A) × (r ≡ ok a) × (b ≡ f a)
map_result-eq-ok f (ok a) h = (a, refl, cc h)
map_result-eq-ok f (err e) h = cc
map_result-eq-ok f panic h = cc

module _ {W A : Type 0} where
  -- A run that goes on after a call has its result in front of the others.
  record_result-eq-ok :
      (i : ℕ) (a : Result A × W) (rest : Call W (List (ℕ × Result A))) (done : List (ℕ × Result A))
      → (record_result i a rest).0 ≡ ok done
      → (l : List (ℕ × Result A)) × ((rest a.1).0 ≡ ok l) × (done ≡ (i, a.0) ∷ l)
  unfolding record_result
  record_result-eq-ok i (ok x, w) rest done h = map_result-eq-ok (◌∷◌ (i, ok x)) (rest w).0 h
  record_result-eq-ok i (err x, w) rest done h = map_result-eq-ok (◌∷◌ (i, err x)) (rest w).0 h
  record_result-eq-ok i (panic, w) rest done h = cc

  record_result-ne-err :
      (i : ℕ) (a : Result A × W) (rest : Call W (List (ℕ × Result A))) (e : S3Error)
      → (rest a.1).0 ≢ err e
      → (record_result i a rest).0 ≢ err e
  unfolding record_result
  record_result-ne-err i (ok x, w) rest e none_there h = ground (arith, h, none_there)
  record_result-ne-err i (err x, w) rest e none_there h = ground (arith, h, none_there)
  record_result-ne-err i (panic, w) rest e none_there h = cc

  complete-skip :
      (tasks : List (Call W A)) (j : ℕ) (order : List ℕ) (w : W)
      → get_elem? tasks j ≡ none
      → complete tasks (j ∷ order) w ≡ complete tasks order w
  unfolding complete
  complete-skip tasks j order w e = rw (e, complete)

  pub complete-step :
      (tasks : List (Call W A)) (j : ℕ) (order : List ℕ) (w : W) (task : Call W A)
      → get_elem? tasks j ≡ some task
      → complete tasks (j ∷ order) w ≡ record_result j (task w) (complete tasks order)
  unfolding complete
  complete-step tasks j order w task e = rw (e, complete)

module _ {W A : Type 0} (tasks : List (Call W A)) where
  -- A call that completes in a run that does not unwind leaves its result.
  complete-find_result :
      (order : List ℕ) (w : W) (done : List (ℕ × Result A)) (i : ℕ)
      → (complete tasks order w).0 ≡ ok done
      → contains i order ≡ true
      → get_elem? tasks i ≢ none
      → (r : Result A) × (find_result i done ≡ some r)
  unfolding contains find_result
  complete-find_result [] w done i h c b = absurd (ground arith)
  complete-find_result (j ∷ order) w done i h c b = elim (Option-cases (get_elem? tasks j)) [
    | inl e ↦
        complete-find_result order w done i (ground (arith, h, complete-skip tasks j order w e))
          (ground (arith, c, b, e)) b
    | inr (task, e) ↦
        let (l, hl, dl) =
          record_result-eq-ok j (task w) (complete tasks order) done
            (ground (arith, h, complete-step tasks j order w task e)) in
        elim (Bool-cases (j == i)) [
          | inl same ↦ ((task w).0, rw dl (rw same refl))
          | inr other ↦
              let (r, f) = complete-find_result order (task w).1 l i hl (ground arith) b in
              (r, rw dl (rw other f))
        ]
  ]

  joined_cases :
      (n : ℕ) (r : Result (List (ℕ × Result A)))
      → ((e : S3Error) → r ≢ err e)
      → ((done : List (ℕ × Result A)) (i : ℕ)
          → r ≡ ok done
          → i < n
          → (a : Result A) × (find_result i done ≡ some a))
      → (map_result (in_order 0 n) r ≡ panic)
        ⊎ ((answers : List (Result A)) × (map_result (in_order 0 n) r
              ≡ ok (enumerate_from 0 answers))
            × (length answers ≡ n))
  joined_cases n (ok done) no_err found =
      let (answers, e, l) =
        in_order-enumerate_from 0 n done (λ j above below. found done j refl (omega arith)) in
      inr (answers, ap ok e, l)
  joined_cases n (err e) no_err found = absurd (no_err e refl)
  joined_cases n panic no_err found = inl refl

  complete-ne-err : (order : List ℕ) (w : W) (e : S3Error) → (complete tasks order w).0 ≢ err e
  complete-ne-err [] w e h = unfold complete in cc h
  complete-ne-err (j ∷ order) w e h = elim (Option-cases (get_elem? tasks j)) [
    | inl f ↦ complete-ne-err order w e (ground (arith, h, complete-skip tasks j order w f))
    | inr (task, f) ↦
        record_result-ne-err j (task w) (complete tasks order) e
          (complete-ne-err order (task w).1 e)
          (ground (arith, h, complete-step tasks j order w task f))
  ]

  -- Under a schedule of all the calls, joining them unwinds, or returns one result for each call,
  -- each with its index, in the order of the calls.
  pub join_all-enumerate_from :
      (order : List ℕ) (w : W)
      → IsSchedule (length tasks) order
      → ((join_all tasks order w).0 ≡ panic)
        ⊎ ((answers : List (Result A)) × ((join_all tasks order w).0
              ≡ ok (enumerate_from 0 answers))
            × (length answers ≡ length tasks))
  unfolding join_all
  join_all-enumerate_from order w s =
      joined_cases (length tasks) (complete tasks order w).0 (complete-ne-err order w) λ done i h b.
        let (task, e) = get_elem?-some tasks i b in
        complete-find_result order w done i h (rw s.covers (ground arith)) (ground (arith, e))
