-- ===== src/Common/Texts/Ends.antt =====
-- The ends of a text: trimming and prefixes.
use Prim.Native.Nat.{ℕ, zero, suc, ◌+◌, ◌≤◌}
use native.Mathlib.Omega.{arith}
use mathlib.Core.Logic.{inl, inr}
use mathlib.Core.Path.{◌≡◌, refl, ap}
use mathlib.Core.Option.{none, some}
use mathlib.Core.List.{List, [], ◌∷◌, ◌++◌}
use replica_t.Common.Tests.{==_refl, Option-cases}
use replica_t.Common.Lists.{All, length}
use replica_t.Common.Chars.{Text}
use replica_t.Common.Texts.{
  is_whitespace, trim_start, trim_cons, trim_end, trim, strip_prefix, strip_all, trim_start_matches,
  join, IsSolid, replace_within, replace,
}

pub All-append {ℓ κ} :
    {A : Type ℓ} (P : A → Type κ) (xs ys : List A) → All P xs → All P ys → All P (xs ++ ys)
All-append P [] ys h k = k
All-append P (x ∷ xs) ys h k = (h.0, All-append P xs ys h.1 k)

pub All-join :
    (P : ℕ → Type 0) (sep : Text) (ps : List Text)
    → All P sep
    → All (All P) ps
    → All P (join ps sep)
unfolding join
All-join P sep [] h k = tt
All-join P sep (p ∷ []) h k = k.0
All-join P sep (p ∷ q ∷ ps) h k =
    All-append P (p ++ sep) (join (q ∷ ps) sep) (All-append P p sep k.0 h)
      (All-join P sep (q ∷ ps) h k.1)

trim_start-IsSolid : (s : Text) → IsSolid s → trim_start s ≡ s
unfolding trim_start
trim_start-IsSolid [] h = refl
trim_start-IsSolid (b ∷ s) h = rw h.0 refl

trim_end-IsSolid : (s : Text) → IsSolid s → trim_end s ≡ s
unfolding trim_end trim_cons
trim_end-IsSolid [] h = refl
trim_end-IsSolid (b ∷ []) h = rw h.0 refl
trim_end-IsSolid (b ∷ c ∷ s) h = rw (trim_end-IsSolid (c ∷ s) h.1) refl

-- A text without white space has nothing to trim.
pub trim-IsSolid : (s : Text) → IsSolid s → trim s ≡ s
unfolding trim
trim-IsSolid s h = rw (trim_start-IsSolid s h, trim_end-IsSolid s h) refl

-- White space in front goes.
pub trim-space : (s : Text) → trim (32 ∷ s) ≡ trim s
unfolding trim trim_start is_whitespace
trim-space s = refl

pub strip_prefix-append : (p s : Text) → strip_prefix (p ++ s) p ≡ some s
unfolding strip_prefix
strip_prefix-append [] [] = refl
strip_prefix-append [] (a ∷ s) = refl
strip_prefix-append (b ∷ p) s = rw (==_refl b) (strip_prefix-append p s)

strip_all_absent : (fuel : ℕ) (s p : Text) → strip_prefix s p ≡ none → strip_all fuel s p ≡ s
unfolding strip_all
strip_all_absent zero s p h = refl
strip_all_absent (suc fuel) s p h = rw (strip_all, h) refl

-- One copy in front of a text that does not begin with another goes, and no more.
pub trim_start_matches-append :
    (b : ℕ) (p s : Text)
    → strip_prefix s (b ∷ p) ≡ none
    → trim_start_matches ((b ∷ p) ++ s) (b ∷ p) ≡ s
unfolding trim_start_matches strip_all
trim_start_matches-append b p s h =
    rw (strip_all, strip_prefix-append (b ∷ p) s) (strip_all_absent (length (p ++ s)) s (b ∷ p) h)

strip_prefix-length : (s p r : Text) → strip_prefix s p ≡ some r → length r + length p ≡ length s
unfolding strip_prefix
strip_prefix-length s [] r h = let e : s ≡ r = ground (arith, h) in rw e (omega arith)
strip_prefix-length [] (b ∷ p) r h = absurd (ground (arith, h))
strip_prefix-length (a ∷ s) (b ∷ p) r h =
    let rest : strip_prefix s p ≡ some r = ground (arith, h) in
    omega (arith, strip_prefix-length s p r rest)

module _ (b : ℕ) (p : Text) where
  strip_all_enough :
      (n m : ℕ) (s : Text)
      → length s ≤ n
      → length s ≤ m
      → strip_all n s (b ∷ p) ≡ strip_all m s (b ∷ p)
  unfolding strip_all strip_prefix
  strip_all_enough zero zero s h k = refl
  strip_all_enough zero (suc m) [] h k = refl
  strip_all_enough zero (suc m) (a ∷ s) h k = absurd (omega arith)
  strip_all_enough (suc n) zero [] h k = refl
  strip_all_enough (suc n) zero (a ∷ s) h k = absurd (omega arith)
  strip_all_enough (suc n) (suc m) s h k = elim (Option-cases (strip_prefix s (b ∷ p))) [
    | inl e ↦ rw (strip_all, e) refl
    | inr (r, e) ↦
        let shorter = strip_prefix-length s (b ∷ p) r e in
        rw (strip_all, e) (strip_all_enough n m r (omega arith) (omega arith))
  ]

  -- Fuel of the text's length is enough: more of it strips no more.
  pub trim_start_matches_enough :
      (n : ℕ) (s : Text) → length s ≤ n → strip_all n s (b ∷ p) ≡ trim_start_matches s (b ∷ p)
  unfolding trim_start_matches
  trim_start_matches_enough n s h = strip_all_enough n (length s) s h (omega arith)

  replace_within_enough :
      (to : Text) (n m : ℕ) (s : Text)
      → length s ≤ n
      → length s ≤ m
      → replace_within n s (b ∷ p) to ≡ replace_within m s (b ∷ p) to
  unfolding replace_within
  replace_within_enough to zero zero s h k = refl
  replace_within_enough to zero (suc m) [] h k = refl
  replace_within_enough to zero (suc m) (a ∷ s) h k = absurd (omega arith)
  replace_within_enough to (suc n) zero [] h k = refl
  replace_within_enough to (suc n) zero (a ∷ s) h k = absurd (omega arith)
  replace_within_enough to (suc n) (suc m) [] h k = refl
  replace_within_enough to (suc n) (suc m) (a ∷ s) h k =
      elim (Option-cases (strip_prefix (a ∷ s) (b ∷ p))) [
        | inl e ↦
            rw (replace_within, e)
              (ap (◌∷◌ a) (replace_within_enough to n m s (omega arith) (omega arith)))
        | inr (r, e) ↦
            let shorter = strip_prefix-length (a ∷ s) (b ∷ p) r e in
            rw (replace_within, e)
              (ap (λ t. to ++ t) (replace_within_enough to n m r (omega arith) (omega arith)))
      ]

  -- Fuel of the text's length is enough: more of it replaces no more.
  pub replace_enough :
      (to : Text) (n : ℕ) (s : Text)
      → length s ≤ n
      → replace_within n s (b ∷ p) to ≡ replace s (b ∷ p) to
  unfolding replace
  replace_enough to n s h = replace_within_enough to n (length s) s h (omega arith)
