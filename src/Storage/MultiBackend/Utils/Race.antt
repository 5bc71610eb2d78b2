-- ===== src/Storage/MultiBackend/Utils/Race.antt =====
-- `race_all_backends` of utils.rs: which of the concurrent answers a BEST_EFFORT read returns.
use replica_t.Common.{
  ℕ, ◌≡◌, refl, ◌∙◌, ◌↔◌, inl, inr, Bool, true, false, Option, none, some, List, [], ◌∷◌, ◌++◌, map,
  get_elem?, get_elem?-some, length, length-map, ◌<◌, ==_refl, ap, subst, arith, Bool-cases,
}
use mathlib.Core.List.{append-nil}
use replica_t.Types.Error.{Result, S3Error, ok, err, panic}
use replica_t.Storage.Backend.{Call}
use replica_t.Storage.Schedule.{IsSchedule, contains}
use replica_t.Storage.MultiBackend.{MultiBackend}
use replica_t.Storage.MultiBackend.Utils.{Operation, on_result, unwrap_or, race, race_all_backends}

-- The last of the errors in the order of completion, if there is one.
abbrev pub last_of : Option S3Error → List S3Error → Option S3Error
last_of e [] = e
last_of e (f ∷ fs) = last_of (some f) fs

module _ {W A : Type 0} (is_not_found_error : S3Error → Bool) (tasks : List (Call W A)) where
  -- An answer that ends the race: a success, a panic, or a "not found".
  abbrev pub IsDecisive : Result A → Type 0
  IsDecisive r = (e : S3Error) → r ≡ err e → is_not_found_error e ≡ true

  -- The calls that complete first fail with other errors, `errors`, and leave the world `w'`.
  pub data Fail (w' : W) : List ℕ → List S3Error → W → Type 0 where
    none_left : Fail w' [] [] w'
    fails :
        {i : ℕ} {order : List ℕ} {errors : List S3Error} {w w1 : W} (task : Call W A) (e : S3Error)
        → get_elem? tasks i ≡ some task
        → task w ≡ (err e, w1)
        → is_not_found_error e ≡ false
        → Fail w' order errors w1
        → Fail w' (i ∷ order) (e ∷ errors) w

  module _ (d : S3Error) where
    race-step :
        (i : ℕ) (order : List ℕ) (last : Option S3Error) (task : Call W A) (e : S3Error) (w w1 : W)
        → get_elem? tasks i ≡ some task
        → task w ≡ (err e, w1)
        → is_not_found_error e ≡ false
        → race is_not_found_error d tasks last (i ∷ order) w
          ≡ race is_not_found_error d tasks (some e) order w1
    unfolding race
    race-step i order last task e w w1 t h real = rw (t, race) (rw (h, on_result) (rw real))

    race-Fail :
        (w' : W) (before : List ℕ) (errors : List S3Error) (w : W) (rest : List ℕ)
        (last : Option S3Error)
        → Fail w' before errors w
        → race is_not_found_error d tasks last (before ++ rest) w
          ≡ race is_not_found_error d tasks (last_of last errors) rest w'
    race-Fail w' before errors w rest last none_left = refl
    race-Fail w' before errors w rest last
          (fails {i = i} {order = o} {errors = es} {w1 = w1} task e t h real more) =
        race-step i (o ++ rest) last task e w w1 t h real ∙ race-Fail w' o es w1 rest (some e) more

    -- The first decisive answer, in the order of completion, is the read's.
    race-decisive :
        (i : ℕ) (after : List ℕ) (last : Option S3Error) (task : Call W A) (r : Result A) (w w' : W)
        → get_elem? tasks i ≡ some task
        → task w ≡ (r, w')
        → IsDecisive r
        → race is_not_found_error d tasks last (i ∷ after) w ≡ (r, w')
    unfolding race
    race-decisive i after last task (ok a) w w' t h decisive = rw (t, race) (rw (h, on_result))
    race-decisive i after last task panic w w' t h decisive = rw (t, race) (rw (h, on_result))
    race-decisive i after last task (err e) w w' t h decisive =
        rw (t, race) (rw (h, on_result) (rw (decisive e refl)))

    -- How a race over `order` ends: it is won by the first decisive answer, all calls that
    -- completed before it having failed; or all fail, and the last failure is reported.
    pub data RaceRun (last : Option S3Error) (order : List ℕ) (w : W) (r : Result A) (w' : W)
        : Type 0 where
      won :
          (before : List ℕ) (i : ℕ) (after : List ℕ) (errors : List S3Error) (w1 : W)
          (task : Call W A)
          → order ≡ before ++ i ∷ after
          → Fail w1 before errors w
          → get_elem? tasks i ≡ some task
          → task w1 ≡ (r, w')
          → IsDecisive r
          → RaceRun last order w r w'
      lost :
          (errors : List S3Error)
          → Fail w' order errors w
          → r ≡ err (unwrap_or (last_of last errors) d)
          → RaceRun last order w r w'

    run_sound :
        (last : Option S3Error) (order : List ℕ) (w : W) (r : Result A) (w' : W)
        → RaceRun last order w r w'
        → race is_not_found_error d tasks last order w ≡ (r, w')
    run_sound last order w r w' (won before i after errors w1 task e failed t h decisive) = rw e (
        race-Fail w1 before errors w (i ∷ after) last failed
        ∙ race-decisive i after (last_of last errors) task r w1 w' t h decisive)
    run_sound last order w r w' (lost errors failed e) =
        rw (← append-nil order) (race-Fail w' order errors w [] last failed ∙ (unfold race in rw e))

    abbrev Out : Option S3Error → List ℕ → W → Result A × W → Type 0
    Out last order w out = RaceRun last order w out.0 out.1

    run_after :
        (i : ℕ) (order : List ℕ) (last : Option S3Error) (task : Call W A) (e : S3Error) (w w1 : W)
        (r : Result A) (w' : W)
        → get_elem? tasks i ≡ some task
        → task w ≡ (err e, w1)
        → is_not_found_error e ≡ false
        → RaceRun (some e) order w1 r w'
        → RaceRun last (i ∷ order) w r w'
    run_after i order last task e w w1 r w' t h real
          (won before j after errors w2 other x failed u k decisive) =
        won (i ∷ before) j after (e ∷ errors) w2 other (ap (◌∷◌ i) x) (fails task e t h real failed)
          u k decisive
    run_after i order last task e w w1 r w' t h real (lost errors failed x) =
        lost (e ∷ errors) (fails task e t h real failed) x

    run_answer :
        (i : ℕ) (order : List ℕ) (last : Option S3Error) (task : Call W A) (w : W)
        (out : Result A × W)
        → get_elem? tasks i ≡ some task
        → task w ≡ out
        → ((e : S3Error) (w1 : W)
            → Out (some e) order w1 (race is_not_found_error d tasks (some e) order w1))
        → Out last (i ∷ order) w (race is_not_found_error d tasks last (i ∷ order) w)
    run_answer i order last task w (ok a, w1) t h later =
        rw (race-decisive i order last task (ok a) w w1 t h (λ e x. cc))
          (won [] i order [] w task refl none_left t h (λ e x. cc))
    run_answer i order last task w (panic, w1) t h later =
        rw (race-decisive i order last task panic w w1 t h (λ e x. cc))
          (won [] i order [] w task refl none_left t h (λ e x. cc))
    run_answer i order last task w (err e, w1) t h later =
        elim (Bool-cases (is_not_found_error e)) [
          | inl nf ↦
              let decisive : IsDecisive (err e) = λ f x. ground (arith, nf, x) in
              rw (race-decisive i order last task (err e) w w1 t h decisive)
                (won [] i order [] w task refl none_left t h decisive)
          | inr real ↦
              rw (race-step i order last task e w w1 t h real)
                (run_after i order last task e w w1 _ _ t h real (later e w1))
        ]

    run_complete :
        (order : List ℕ) (last : Option S3Error) (w : W)
        → ((i : ℕ) → contains i order ≡ true → i < length tasks)
        → Out last order w (race is_not_found_error d tasks last order w)
    run_complete [] last w bounded = unfold race in lost [] none_left refl
    run_complete (i ∷ order) last w bounded =
        let (task, t) = get_elem?-some tasks i (bounded i (unfold contains in rw (==_refl i))) in
        run_answer i order last task w (task w) t refl λ e w1.
          run_complete order (some e) w1 λ j c. bounded j (unfold contains in ground (arith, c))

module _ {W A : Type 0} (m : MultiBackend W) (order : List ℕ) (is_not_found_error : S3Error → Bool)
    (not_found_error : S3Error) (operation : Operation W A) where
  -- Under a schedule of all backends' calls, a BEST_EFFORT read has just the results and the final
  -- worlds of `RaceRun`: the first success or "not found" in the order of completion decides, and
  -- where every call fails with another error the last of these is returned.
  pub race_all_backends-iff_RaceRun :
      (w : W) (r : Result A) (w' : W)
      → IsSchedule (length m.backends) order
      → (race_all_backends m order is_not_found_error not_found_error operation w ≡ (r, w'))
        ↔ RaceRun is_not_found_error (map operation m.backends) not_found_error none order w r w'
  unfolding race_all_backends
  race_all_backends-iff_RaceRun w r w' s =
      let tasks = map operation m.backends in
      let d = not_found_error in
      let bounded : (i : ℕ) → contains i order ≡ true → i < length tasks =
        λ i c. rw (length-map operation m.backends) (ground (arith, s.covers i, c)) in
      (
        λ h.
            subst (λ out. RaceRun is_not_found_error tasks d none order w out.0 out.1) h
              (run_complete is_not_found_error tasks d order none w bounded),
        run_sound is_not_found_error tasks d none order w r w',
      )
