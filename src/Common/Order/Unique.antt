-- ===== src/Common/Order/Unique.antt =====
-- The sort by a total order: a sorted list stays, and the order of the members does not matter.
use native.Mathlib.Omega.{arith}
use mathlib.Core.Path.{◌≡◌, refl, ap, ◌∙◌, sym}
use mathlib.Core.List.{List, [], ◌∷◌, Perm, foldr}
use mathlib.Core.List.Perm
use mathlib.Core.Bool.{Bool, true}
use mathlib.Core.Logic.{inl, inr}
use replica_t.Common.Tests.{Bool-cases}
use replica_t.Common.Lists.{All}
use replica_t.Common.Order.{insert_by, sort_by, IsSortedBy, IsTotalOrder}

module _ {ℓ} {A : Type ℓ} (le : A → A → Bool) where
  insert_by_first : (x : A) (l : List A) → All (λ y. le x y ≡ true) l → insert_by le x l ≡ x ∷ l
  unfolding insert_by
  insert_by_first x [] a = refl
  insert_by_first x (y ∷ l) a = rw a.0 refl

  pub sort_by_sorted : (l : List A) → IsSortedBy le l → sort_by le l ≡ l
  unfolding sort_by
  sort_by_sorted [] s = refl
  sort_by_sorted (x ∷ l) s = rw (sort_by_sorted l s.1) (insert_by_first x l s.0)

  All-insert_by {κ} :
      (P : A → Type κ) (x : A) (l : List A) → P x → All P l → All P (insert_by le x l)
  unfolding insert_by
  All-insert_by P x [] h a = (h, tt)
  All-insert_by P x (y ∷ l) h a = elim (Bool-cases (le x y)) [
    | inl e ↦ rw e (h, a)
    | inr e ↦ rw e (a.0, All-insert_by P x l h a.1)
  ]

  pub All-sort_by {κ} : (P : A → Type κ) (l : List A) → All P l → All P (sort_by le l)
  unfolding sort_by
  All-sort_by P [] a = tt
  All-sort_by P (x ∷ l) a = All-insert_by P x (sort_by le l) a.0 (All-sort_by P l a.1)

  insert_by_comm :
      IsTotalOrder le
      → ((a b : A) → le a b ≡ true → le b a ≡ true → a ≡ b)
      → (x y : A) (l : List A)
      → insert_by le x (insert_by le y l) ≡ insert_by le y (insert_by le x l)
  unfolding insert_by
  insert_by_comm o anti x y [] = ground (arith, anti x y, o.total x y, o.total y x)
  insert_by_comm o anti x y (z ∷ l) = ground (
    arith,
    anti x y,
    o.total x y,
    o.total y x,
    o.trans x y z,
    o.trans y x z,
    insert_by_comm o anti x y l,
  )

  sort_by-foldr : (l : List A) → sort_by le l ≡ foldr (insert_by le) [] l
  unfolding sort_by
  sort_by-foldr [] = refl
  sort_by-foldr (x ∷ l) = ap (insert_by le x) (sort_by-foldr l)

  -- Under an antisymmetric total order, lists with the same members are sorted alike.
  pub sort_by_unique :
      IsSet (List A)
      → IsTotalOrder le
      → ((a b : A) → le a b ≡ true → le b a ≡ true → a ≡ b)
      → (l r : List A) → Perm l r
      → sort_by le l ≡ sort_by le r
  sort_by_unique h o anti l r p =
      sort_by-foldr l
      ∙ Perm.foldr-eq h (insert_by le) (insert_by_comm o anti) p []
      ∙ sym (sort_by-foldr r)
