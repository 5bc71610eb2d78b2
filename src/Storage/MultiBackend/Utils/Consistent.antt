-- ===== src/Storage/MultiBackend/Utils/Consistent.antt =====
-- The consistency checks of utils.rs, over what the joined calls returned.
use replica_t.Common.{
  ℕ, zero, suc, ◌+◌, ◌≤◌, ◌<◌, Text, text_eq_iff, ◌≡◌, refl, ap, sym, ◌∙◌, ◌↔◌, ◌≢◌, inl, inr,
  false, some, List, [], ◌∷◌, map, length, get_elem?, get_elem?-some, enumerate_from, length-map,
  All, arith, Option-cases, ==_refl,
}
use replica_t.Types.Error.{Result, ok, err, panic, ◌>>=◌, bind-ne-panic}
use replica_t.Storage.Schedule.{IsSchedule, join_all}
use replica_t.Storage.Schedule.Joined.{join_all-enumerate_from}
use replica_t.Storage.MultiBackend.{MultiBackend}
use replica_t.Storage.MultiBackend.Utils.{
  Operation, successes, etag_mismatch, compare_etags, check_etags, verify_all_consistent_etag,
}

module _ {A : Type 0} where
  length-successes-le :
      (i : ℕ) (rs : List (Result A)) → length (successes (enumerate_from i rs)) ≤ length rs
  unfolding successes
  length-successes-le i [] = omega arith
  length-successes-le i (ok a ∷ rs) = omega (arith, length-successes-le (suc i) rs)
  length-successes-le i (err e ∷ rs) = omega (arith, length-successes-le (suc i) rs)
  length-successes-le i (panic ∷ rs) = omega (arith, length-successes-le (suc i) rs)

  -- As many successes as results: every result is one.
  pub successes-full :
      (i : ℕ) (rs : List (Result A))
      → length (successes (enumerate_from i rs)) ≡ length rs
      → (answers : List A) × (rs ≡ map ok answers)
  unfolding successes
  successes-full i [] h = ([], refl)
  successes-full i (ok a ∷ rs) h =
      let (answers, e) = successes-full (suc i) rs (omega arith) in (a ∷ answers, ap (◌∷◌ (ok a)) e)
  successes-full i (err e ∷ rs) h = absurd (omega (arith, length-successes-le (suc i) rs))
  successes-full i (panic ∷ rs) h = absurd (omega (arith, length-successes-le (suc i) rs))

  pub successes-ok :
      (i : ℕ) (answers : List A)
      → successes (enumerate_from i (map ok answers)) ≡ enumerate_from i answers
  unfolding successes
  successes-ok i [] = refl
  successes-ok i (a ∷ answers) = ap (◌∷◌ (i, a)) (successes-ok (suc i) answers)

  pub get_elem?-enumerate_from :
      (i p : ℕ) (l : List A) (j : ℕ) (a : A)
      → (get_elem? (enumerate_from i l) p ≡ some (j, a))
      → get_elem? l p ≡ some a
  get_elem?-enumerate_from i p [] j a h = ground arith
  get_elem?-enumerate_from i zero (x ∷ l) j a h = cc
  get_elem?-enumerate_from i (suc p) (x ∷ l) j a h = get_elem?-enumerate_from (suc i) p l j a h

  pub length-enumerate_from : (i : ℕ) (l : List A) → length (enumerate_from i l) ≡ length l
  length-enumerate_from i [] = refl
  length-enumerate_from i (x ∷ l) = ap suc (length-enumerate_from (suc i) l)

  pub enumerate_from-get_elem? :
      (i p : ℕ) (l : List A) (a : A)
      → get_elem? l p ≡ some a
      → get_elem? (enumerate_from i l) p ≡ some (i + p, a)
  enumerate_from-get_elem? i p [] a h = ground arith
  enumerate_from-get_elem? i zero (x ∷ l) a h = ground arith
  enumerate_from-get_elem? i (suc p) (x ∷ l) a h =
      enumerate_from-get_elem? (suc i) p l a h ∙ ground arith

  etag_mismatch-false :
      (extract_etag : A → Text) (e : Text) (i : ℕ) (l : List A)
      → (etag_mismatch extract_etag e (enumerate_from i l) ≡ false)
        ↔ All (λ b. extract_etag b ≡ e) l
  unfolding etag_mismatch
  etag_mismatch-false f e i [] = (λ _. tt, λ _. refl)
  etag_mismatch-false f e i (a ∷ l) = (
    λ h. ground (arith, h, text_eq_iff (f a) e, (etag_mismatch-false f e (suc i) l).0),
    λ h. ground (arith, h.0, h.1, text_eq_iff (f a) e, (etag_mismatch-false f e (suc i) l).1),
  )

  -- What an accepted read rests on: every backend answered, all with the ETag of the primary's
  -- answer, which is the one that is returned.
  abbrev pub AllAgree : ℕ → (A → Text) → List A → A → Type 0
  AllAgree p extract_etag answers a =
      (get_elem? answers p ≡ some a) × All (λ b. extract_etag b ≡ extract_etag a) answers

  check_etags-map_ok :
      (p : ℕ) (f : A → Text) (answers : List A)
      → check_etags (length answers) p f (enumerate_from 0 (map ok answers))
        ≡ compare_etags f (enumerate_from 0 answers) (get_elem? (enumerate_from 0 answers) p)
  check_etags-map_ok p f answers =
      unfold check_etags in
      rw (successes-ok 0 answers)
        (rw (length-enumerate_from 0 answers) (rw (==_refl (length answers))))

  compare_etags-ok :
      (p : ℕ) (f : A → Text) (answers : List A) (a : A)
      → compare_etags f (enumerate_from 0 answers) (get_elem? (enumerate_from 0 answers) p) ≡ ok a
      → AllAgree p f answers a
  unfolding compare_etags
  compare_etags-ok p f answers a h = elim (Option-cases (get_elem? (enumerate_from 0 answers) p)) [
    | inl e ↦ absurd (ground (arith, h, e))
    | inr ((j, b), e) ↦
        let same : b ≡ a = ground (arith, h, e) in
        let agree : etag_mismatch f (f b) (enumerate_from 0 answers) ≡ false =
          ground (arith, h, e) in
        rw (← same) (
          get_elem?-enumerate_from 0 p answers j b e,
          (etag_mismatch-false f (f b) 0 answers).0 agree,
        )
  ]

  compare_etags-AllAgree :
      (p : ℕ) (f : A → Text) (answers : List A) (a : A)
      → AllAgree p f answers a
      → compare_etags f (enumerate_from 0 answers) (get_elem? (enumerate_from 0 answers) p) ≡ ok a
  unfolding compare_etags
  compare_etags-AllAgree p f answers a h =
      rw (enumerate_from-get_elem? 0 p answers a h.0)
        (rw ((etag_mismatch-false f (f a) 0 answers).1 h.1))

  check_etags-ok :
      (p : ℕ) (f : A → Text) (rs : List (Result A)) (a : A)
      → check_etags (length rs) p f (enumerate_from 0 rs) ≡ ok a
      → (answers : List A) × (rs ≡ map ok answers)
  check_etags-ok p f rs a h = unfold check_etags in successes-full 0 rs (ground (arith, h))

  check_etags-agree :
      (p : ℕ) (f : A → Text) (rs : List (Result A)) (a : A)
      → check_etags (length rs) p f (enumerate_from 0 rs) ≡ ok a
      → (answers : List A) × (rs ≡ map ok answers)
        × (length answers ≡ length rs)
        × AllAgree p f answers a
  check_etags-agree p f rs a h =
      let (answers, e) = check_etags-ok p f rs a h in
      let n : length rs ≡ length answers = rw e (length-map ok answers) in
      let k : check_etags (length answers) p f (enumerate_from 0 (map ok answers)) ≡ ok a =
        rw (← e, ← n) h in
      (answers, e, sym n, compare_etags-ok p f answers a (sym (check_etags-map_ok p f answers) ∙ k))

  compare_etags-ne-panic :
      (p : ℕ) (f : A → Text) (oks : List (ℕ × A))
      → p < length oks
      → compare_etags f oks (get_elem? oks p) ≢ panic
  unfolding compare_etags
  compare_etags-ne-panic p f oks b h = let (a, e) = get_elem?-some oks p b in ground (arith, h, e)

  check_etags-ne-panic :
      (n p : ℕ) (f : A → Text) (rs : List (ℕ × Result A)) → p < n → check_etags n p f rs ≢ panic
  unfolding check_etags
  check_etags-ne-panic n p f rs b h = ground (arith, h, compare_etags-ne-panic p f (successes rs))

module _ {W A : Type 0} (m : MultiBackend W) (order : List ℕ) (extract_etag : A → Text)
    (operation : Operation W A) where
  -- Under a schedule of all the calls, an ALL_CONSISTENT read returns a value exactly if the joined
  -- calls returned one success for each backend, all ETags equal the one of the value, and the
  -- value is the primary's.
  pub verify_all_consistent_etag-ok_iff :
      (w : W) (a : A)
      → IsSchedule (length m.backends) order
      → ((verify_all_consistent_etag m order extract_etag operation w).0 ≡ ok a) ↔ (
          (answers : List A) × ((join_all (map operation m.backends) order w).0
            ≡ ok (enumerate_from 0 (map ok answers)))
          × (length answers ≡ length m.backends)
          × AllAgree m.primary_index extract_etag answers a)
  unfolding verify_all_consistent_etag
  verify_all_consistent_etag-ok_iff w a s = (
    λ h.
        elim (join_all-enumerate_from (map operation m.backends) order w
          (rw (length-map operation m.backends) s)) [
            | inl e ↦ absurd (ground (arith, h, e))
            | inr (rs, e, l) ↦
                let n : length m.backends ≡ length rs = sym (l ∙ length-map operation m.backends) in
                let k : check_etags (length rs) m.primary_index extract_etag (enumerate_from 0 rs)
                    ≡ ok a =
                  rw (← n) (
                    ap (λ r. r >>= check_etags (length m.backends) m.primary_index extract_etag)
                      (sym e)
                    ∙ h) in
                let (answers, f, len, agree) =
                  check_etags-agree m.primary_index extract_etag rs a k in
                (answers, rw (← f) e, len ∙ sym n, agree)
          ],
    λ (answers, e, l, agree). rw e (
        rw (← l) (
          check_etags-map_ok m.primary_index extract_etag answers
          ∙ compare_etags-AllAgree m.primary_index extract_etag answers a agree)),
  )

  -- An ALL_CONSISTENT read with the primary index in bounds does not panic, where joining the calls
  -- does not.
  verify_all_consistent_etag-ne-panic :
      (w : W)
      → m.primary_index < length m.backends
      → (join_all (map operation m.backends) order w).0 ≢ panic
      → (verify_all_consistent_etag m order extract_etag operation w).0 ≢ panic
  unfolding verify_all_consistent_etag
  verify_all_consistent_etag-ne-panic w b calm h =
      bind-ne-panic (join_all (map operation m.backends) order w).0 _ calm
        (λ rs. check_etags-ne-panic (length m.backends) m.primary_index extract_etag rs b) h
