-- ===== src/Storage/Schedule/Agreed.antt =====
-- Joined calls that all give one answer.
use replica_t.Common.{
  ℕ, zero, suc, ◌+◌, ◌≤◌, ◌<◌, ◌≡◌, ◌≢◌, refl, ap, ◌∙◌, true, some, List, [], ◌∷◌, length,
  replicate, get_elem?, get_elem?-some, enumerate_from, arith,
}
use replica_t.Types.Error.{Result, ok, err, panic, map_result}
use replica_t.Storage.Backend.{Call}
use replica_t.Storage.Schedule.{
  contains, IsSchedule, record_result, complete, find_result, in_order, order_results, join_all,
}

module _ {A : Type 0} where
  -- One result for every call.
  pub in_order-replicate :
      (r : Result A) (i n : ℕ) (done : List (ℕ × Result A))
      → ((j : ℕ) → i ≤ j → j < i + n → find_result j done ≡ some r)
      → in_order i n done ≡ enumerate_from i (replicate n r)
  unfolding in_order
  in_order-replicate r i zero done h = refl
  in_order-replicate r i (suc n) done h =
      rw (h i (omega arith) (omega arith), in_order)
        (ap (◌∷◌ (i, r))
          (in_order-replicate r (suc i) n done λ j above below. h j (omega arith) (omega arith)))

module _ {W A : Type 0} where
  -- A result that does not unwind joins the results that follow.
  pub record_returned :
      (i : ℕ) (r : Result A) (w : W) (rest : Call W (List (ℕ × Result A)))
      → r ≢ panic
      → record_result i (r, w) rest ≡ (map_result (◌∷◌ (i, r)) (rest w).0, (rest w).1)
  unfolding record_result
  record_returned i (ok a) w rest h = refl
  record_returned i (err e) w rest h = refl
  record_returned i panic w rest h = absurd (h refl)

module _ {W A : Type 0} (tasks : List (Call W A)) where
  -- Each call gives `r` and leaves the world as it is.
  abbrev pub AllGive : Result A → W → Type 0
  AllGive r w = (i : ℕ) (task : Call W A) → get_elem? tasks i ≡ some task → task w ≡ (r, w)

  -- Each call succeeds with `a` and leaves the world as it is.
  abbrev pub AllAnswer : A → W → Type 0
  AllAnswer a = AllGive (ok a)

  module _ (r : Result A) (w : W) (all : AllGive r w) (returns : r ≢ panic) where
    complete_agreed :
        (order : List ℕ)
        → ((i : ℕ) → contains i order ≡ true → i < length tasks)
        → (done : List (ℕ × Result A)) × (complete tasks order w ≡ (ok done, w))
          × ((i : ℕ) → contains i order ≡ true → find_result i done ≡ some r)
    unfolding complete contains find_result
    complete_agreed [] b = ([], refl, λ i c. ground (arith, c))
    complete_agreed (i ∷ order) b =
        let (task, t) = get_elem?-some tasks i (b i (ground arith)) in
        let (done, e, f) = complete_agreed order (λ j c. b j (ground (arith, c))) in
        (
          (i, r) ∷ done,
          rw (t, complete)
              (rw (all i task t)
                (rw (record_returned i r w (complete tasks order) returns) (rw e))),
          λ j c. ground (arith, c, f j),
        )

    -- Whatever the schedule, joining the calls returns `r` for each of them, in a world as before.
    pub join_all_agreed :
        (order : List ℕ)
        → IsSchedule (length tasks) order
        → join_all tasks order w ≡ (ok (enumerate_from 0 (replicate (length tasks) r)), w)
    unfolding join_all
    join_all_agreed order s =
        let (done, e, f) = complete_agreed order (λ i c. ground (arith, s.covers i, c)) in
        rw (e, order_results)
          (rw (
            in_order-replicate r 0 (length tasks) done
              λ j above below. f j (rw s.covers (ground arith))))

  -- Each call gives `r` in every world; it may change the world.
  abbrev pub AlwaysGive : Result A → Type 0
  AlwaysGive r =
      (i : ℕ) (task : Call W A) → get_elem? tasks i ≡ some task → (w : W) → (task w).0 ≡ r

  module _ (r : Result A) (all : AlwaysGive r) (returns : r ≢ panic) where
    complete_given :
        (order : List ℕ) (w : W)
        → ((i : ℕ) → contains i order ≡ true → i < length tasks)
        → (done : List (ℕ × Result A)) × ((complete tasks order w).0 ≡ ok done)
          × ((i : ℕ) → contains i order ≡ true → find_result i done ≡ some r)
    unfolding complete contains find_result
    complete_given [] w b = ([], refl, λ i c. ground (arith, c))
    complete_given (i ∷ order) w b =
        let (task, t) = get_elem?-some tasks i (b i (ground arith)) in
        let (done, e, f) = complete_given order (task w).1 (λ j c. b j (ground (arith, c))) in
        let given = all i task t w in
        (
          (i, r) ∷ done,
          rw (t, complete)
              (ap (λ x. (record_result i (x, (task w).1) (complete tasks order)).0) given
                ∙ ap (λ x. x.0) (record_returned i r (task w).1 (complete tasks order) returns)
                ∙ ap (map_result (◌∷◌ (i, r))) e),
          λ j c. ground (arith, c, f j),
        )

    -- Whatever the schedule, joining the calls returns `r` for each of them.
    pub join_all_given :
        (order : List ℕ) (w : W)
        → IsSchedule (length tasks) order
        → (join_all tasks order w).0 ≡ ok (enumerate_from 0 (replicate (length tasks) r))
    unfolding join_all order_results
    join_all_given order w s =
        let (done, e, f) = complete_given order w (λ i c. ground (arith, s.covers i, c)) in
        ap (map_result (in_order 0 (length tasks))) e
        ∙ ap ok (
            in_order-replicate r 0 (length tasks) done
              λ j above below. f j (rw s.covers (ground arith)))
