-- ===== src/Storage/MultiBackend/Deletes/AllSucceed.antt =====
-- delete_object.rs in the mode MULTI_SYNC, over what the calls of the backends return.
use replica_t.Common.{
  ℕ, zero, suc, Text, ◌≡◌, ◌↔◌, refl, sym, ap, ◌∙◌, List, [], ◌∷◌, map, length, length-map,
  replicate, enumerate_from, arith, inl, inr,
}
use replica_t.Types.Error.{Result, ok, err, panic, ◌>>=◌}
use replica_t.Storage.Schedule.{IsSchedule, join_all}
use replica_t.Storage.Schedule.Joined.{join_all-enumerate_from}
use replica_t.Storage.MultiBackend.{MultiBackend}
use replica_t.Storage.MultiBackend.Deletes.{check_deletes, delete_object_multi_sync}

-- Results that are accepted are successes.
check_deletes-eq-ok :
    (i : ℕ) (rs : List (Result (Unit {0})))
    → check_deletes (enumerate_from i rs) ≡ ok tt
    → rs ≡ replicate (length rs) (ok tt)
unfolding check_deletes
check_deletes-eq-ok i [] h = refl
check_deletes-eq-ok i (ok tt ∷ rs) h = ap (◌∷◌ (ok tt)) (check_deletes-eq-ok (suc i) rs h)
check_deletes-eq-ok i (err e ∷ rs) h = absurd (ground (arith, h))
check_deletes-eq-ok i (panic ∷ rs) h = absurd (ground (arith, h))

pub check_deletes-replicate :
    (i n : ℕ) → check_deletes (enumerate_from i (replicate n (ok tt))) ≡ ok tt
unfolding check_deletes
check_deletes-replicate i zero = refl
check_deletes-replicate i (suc n) = check_deletes-replicate (suc i) n

module _ {W : Type 0} (m : MultiBackend W) (key : Text) (order : List ℕ) where
  -- Under a schedule of all the calls: a DELETE in MULTI_SYNC succeeds exactly if the call of each
  -- backend did. It leaves no task behind, and the world as the calls do.
  pub delete_object_multi_sync-ok_iff :
      (w : W)
      → IsSchedule (length m.backends) order
      → (((delete_object_multi_sync m key order w).0 ≡ ok tt) ↔ (
          (join_all (map (λ b. b.delete_object key) m.backends) order w).0
          ≡ ok (enumerate_from 0 (replicate (length m.backends) (ok tt)))))
        × ((delete_object_multi_sync m key order w).1
            ≡ (join_all (map (λ b. b.delete_object key) m.backends) order w).1)
        × ((delete_object_multi_sync m key order w).2 ≡ [])
  unfolding delete_object_multi_sync
  delete_object_multi_sync-ok_iff w s = (
    (
      λ h.
          elim (join_all-enumerate_from (map (λ b. b.delete_object key) m.backends) order w
            (rw (length-map (λ b. b.delete_object key) m.backends) s)) [
              | inl e ↦ absurd (ground (arith, h, e))
              | inr (rs, e, l) ↦
                  let accepted : check_deletes (enumerate_from 0 rs) ≡ ok tt =
                    ap (λ r. r >>= check_deletes) (sym e) ∙ h in
                  let n : length rs ≡ length m.backends =
                    l ∙ length-map (λ b. b.delete_object key) m.backends in
                  e
                  ∙ ap (λ l. ok (enumerate_from 0 l)) (check_deletes-eq-ok 0 rs accepted)
                  ∙ ap (λ k. ok (enumerate_from 0 (replicate k (ok tt)))) n
            ],
      λ e. ap (λ r. r >>= check_deletes) e ∙ check_deletes-replicate 0 (length m.backends),
    ),
    refl,
    refl,
  )
