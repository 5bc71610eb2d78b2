-- ===== src/Storage/MultiBackend/Utils/Succeed.antt =====
-- `verify_all_succeed` of utils.rs, which HEAD bucket uses in the mode ALL_CONSISTENT.
use replica_t.Common.{
  ℕ, zero, suc, ◌+◌, ◌<◌, ◌≡◌, ◌↔◌, refl, sym, ap, ◌∙◌, subst, Option, none, some, List, [], ◌∷◌,
  map, length, length-map, get_elem?, get_elem?-some, enumerate_from, arith, inl, inr,
}
use replica_t.Types.Error.{Result, ok, err, panic, ◌>>=◌}
use replica_t.Storage.Schedule.{IsSchedule, join_all}
use replica_t.Storage.Schedule.Joined.{join_all-enumerate_from}
use replica_t.Storage.MultiBackend.{MultiBackend}
use replica_t.Storage.MultiBackend.Utils.{Operation, check_succeeded, verify_all_succeed}

module _ {A : Type 0} where
  -- A result that is accepted is that of a list of successes.
  check_succeeded-eq-ok :
      (p i : ℕ) (rs : List (Result A)) (a : A) (o : Option A)
      → check_succeeded p o (enumerate_from i rs) ≡ ok a
      → (answers : List A) × (rs ≡ map ok answers)
  unfolding check_succeeded
  check_succeeded-eq-ok p i [] a o h = ([], refl)
  check_succeeded-eq-ok p i (ok x ∷ rs) a none h =
      let (answers, e) = check_succeeded-eq-ok p (suc i) rs a _ h in
      (x ∷ answers, ap (◌∷◌ (ok x)) e)
  check_succeeded-eq-ok p i (ok x ∷ rs) a (some y) h =
      let (answers, e) = check_succeeded-eq-ok p (suc i) rs a _ h in
      (x ∷ answers, ap (◌∷◌ (ok x)) e)
  check_succeeded-eq-ok p i (err e ∷ rs) a none h = absurd (ground (arith, h))
  check_succeeded-eq-ok p i (err e ∷ rs) a (some y) h = absurd (ground (arith, h))
  check_succeeded-eq-ok p i (panic ∷ rs) a none h = absurd (ground (arith, h))
  check_succeeded-eq-ok p i (panic ∷ rs) a (some y) h = absurd (ground (arith, h))

  -- After the primary's result, the loop keeps it.
  check_succeeded_after :
      (p : ℕ) (a : A) (i : ℕ) (answers : List A)
      → p < i
      → check_succeeded p (some a) (enumerate_from i (map ok answers)) ≡ ok a
  unfolding check_succeeded
  check_succeeded_after p a i [] h = refl
  check_succeeded_after p a i (x ∷ answers) h =
      ground (arith, h, check_succeeded_after p a (suc i) answers)

  -- On successes, the loop returns the primary's.
  check_succeeded_primary :
      (i k : ℕ) (answers : List A) (a : A)
      → get_elem? answers k ≡ some a
      → check_succeeded (i + k) none (enumerate_from i (map ok answers)) ≡ ok a
  unfolding check_succeeded
  check_succeeded_primary i k [] a h = absurd (ground (arith, h))
  check_succeeded_primary i zero (x ∷ answers) a h =
      ground (arith, h, check_succeeded_after (i + 0) x (suc i) answers (omega arith))
  check_succeeded_primary i (suc k) (x ∷ answers) a h =
      let later : check_succeeded (suc i + k) none (enumerate_from (suc i) (map ok answers))
          ≡ ok a =
        check_succeeded_primary (suc i) k answers a h in
      ground (arith, later)

  check_succeeded_found :
      (p : ℕ) (answers : List A) (a : A)
      → get_elem? answers p ≡ some a
      → check_succeeded p none (enumerate_from 0 (map ok answers)) ≡ ok a
  check_succeeded_found p answers a at =
      let zero_plus : 0 + p ≡ p = omega arith in
      subst (λ q. check_succeeded q none (enumerate_from 0 (map ok answers)) ≡ ok a) zero_plus
        (check_succeeded_primary 0 p answers a at)

  check_succeeded_unique :
      (p : ℕ) (answers : List A) (a : A)
      → p < length answers
      → check_succeeded p none (enumerate_from 0 (map ok answers)) ≡ ok a
      → get_elem? answers p ≡ some a
  check_succeeded_unique p answers a b h =
      let (x, at) = get_elem?-some answers p b in
      let found = check_succeeded_found p answers x at in let same : x ≡ a = cc in at ∙ ap some same

module _ {W A : Type 0} (m : MultiBackend W) (order : List ℕ) (operation : Operation W A) where
  -- Under a schedule of all the calls, and with the primary index in bounds, the helper returns a
  -- value exactly if the joined calls returned one success for each backend, and the value is the
  -- primary's.
  pub verify_all_succeed-ok_iff :
      (w : W) (a : A)
      → m.primary_index < length m.backends
      → IsSchedule (length m.backends) order
      → ((verify_all_succeed m order operation w).0 ≡ ok a) ↔ (
          (answers : List A) × ((join_all (map operation m.backends) order w).0
            ≡ ok (enumerate_from 0 (map ok answers)))
          × (length answers ≡ length m.backends)
          × (get_elem? answers m.primary_index ≡ some a))
  unfolding verify_all_succeed
  verify_all_succeed-ok_iff w a b s = (
    λ h.
        elim (join_all-enumerate_from (map operation m.backends) order w
          (rw (length-map operation m.backends) s)) [
            | inl e ↦ absurd (ground (arith, h, e))
            | inr (rs, e, l) ↦
                let k : check_succeeded m.primary_index none (enumerate_from 0 rs) ≡ ok a =
                  ap (λ r. r >>= check_succeeded m.primary_index none) (sym e) ∙ h in
                let (answers, f) = check_succeeded-eq-ok m.primary_index 0 rs a none k in
                let count : length answers ≡ length m.backends =
                  sym (length-map ok answers)
                  ∙ ap length (sym f)
                  ∙ l
                  ∙ length-map operation m.backends in
                let accepted : check_succeeded m.primary_index none
                      (enumerate_from 0 (map ok answers))
                    ≡ ok a =
                  ap (λ l. check_succeeded m.primary_index none (enumerate_from 0 l)) (sym f) ∙ k in
                (
                  answers,
                  rw (← f) e,
                  count,
                  check_succeeded_unique m.primary_index answers a (rw count b) accepted,
                )
          ],
    λ (answers, e, l, at). rw e (check_succeeded_found m.primary_index answers a at),
  )
