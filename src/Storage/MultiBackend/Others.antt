-- ===== src/Storage/MultiBackend/Others.antt =====
-- `.filter(|(idx, _)| *idx != primary_idx)` of mod.rs: the backends that it keeps.
use replica_t.Common.{
  ℕ, zero, suc, ◌+◌, ◌-◌, ◌<◌, ◌==◌, ◌≡◌, refl, sym, ap, ◌∙◌, true, false, List, [], ◌∷◌, ◌++◌, map,
  length, enumerate_from, arith,
}
use replica_t.Storage.Schedule.Each.{tabulate}
use replica_t.Storage.MultiBackend.{MultiBackend, without_index, indexed_others}

-- The values of `f` at the indices below `n` but `p`, ascending.
abbrev pub at_others : {B : Type 0} → (ℕ → B) → ℕ → ℕ → List B
at_others f p n = tabulate f 0 p ++ tabulate f (suc p) (n - suc p)

module _ {A B : Type 0} (f : ℕ → B) where
  without_index_below :
      (p i : ℕ) (l : List A)
      → p < i
      → map (λ b. f b.0) (without_index p (enumerate_from i l)) ≡ tabulate f i (length l)
  unfolding without_index tabulate
  without_index_below p i [] h = refl
  without_index_below p i (a ∷ l) h =
      let other : (i == p) ≡ false = ground arith in
      rw other (ap (◌∷◌ (f i)) (without_index_below p (suc i) l (omega arith)))

  without_index-tabulate :
      (k i p : ℕ) (l : List A)
      → p ≡ i + k
      → k < length l
      → map (λ b. f b.0) (without_index p (enumerate_from i l))
        ≡ tabulate f i k ++ tabulate f (suc p) (length l - suc k)
  unfolding without_index tabulate
  without_index-tabulate k i p [] e h = absurd (omega arith)
  without_index-tabulate zero i p (a ∷ l) e h =
      let here : (i == p) ≡ true = ground arith in
      let next : suc i ≡ suc p = omega arith in
      let count : suc (length l) - 1 ≡ length l = omega arith in
      rw here (
        without_index_below p (suc i) l (omega arith)
        ∙ ap (λ j. tabulate f j (length l)) next
        ∙ ap (tabulate f (suc p)) (sym count))
  without_index-tabulate (suc k) i p (a ∷ l) e h =
      let other : (i == p) ≡ false = ground arith in
      let count : length l - suc k ≡ suc (length l) - suc (suc k) = omega arith in
      rw other (
        ap (◌∷◌ (f i)) (without_index-tabulate k (suc i) p l (omega arith) (omega arith))
        ∙ ap (λ j. f i ∷ tabulate f (suc i) k ++ tabulate f (suc p) j) count)

module _ {W B : Type 0} (m : MultiBackend W) (f : ℕ → B) where
  -- Every backend but the primary, in order.
  pub indexed_others-at_others :
      (n : ℕ)
      → length m.backends ≡ n
      → m.primary_index < n
      → map (λ b. f b.0) (indexed_others m) ≡ at_others f m.primary_index n
  unfolding indexed_others
  indexed_others-at_others n l h =
      without_index-tabulate f m.primary_index 0 m.primary_index m.backends (omega arith) (rw l h)
      ∙ ap (λ k. at_others f m.primary_index k) l
