-- ===== src/Common/Order.antt =====
-- A stable sort by a Boolean test `le`, as `slice::sort_by` gives it.
pub mod Unique
use Prim.Native.Nat.{suc}
use native.Mathlib.Omega.{arith}
use mathlib.Core.Path.{◌≡◌, refl, ap, ◌∙◌}
use mathlib.Core.List.{List, [], ◌∷◌, Perm}
use mathlib.Core.List.Perm
use mathlib.Core.Bool.{Bool, true, false}
use mathlib.Core.Logic.{inl, inr}
use replica_t.Common.Tests.{if◌then◌else◌, Bool-cases}
use replica_t.Common.Lists.{All, length}

module _ {ℓ} {A : Type ℓ} (le : A → A → Bool) where
  -- `x` goes before what is not less than it, so equal members keep their order.
  unfoldable pub insert_by : A → List A → List A
  insert_by x [] = x ∷ []
  insert_by x (y ∷ ys) = if le x y then x ∷ y ∷ ys else y ∷ insert_by x ys

  unfoldable pub sort_by : List A → List A
  unfolding insert_by
  sort_by [] = []
  sort_by (x ∷ xs) = insert_by x (sort_by xs)

  -- Each member stands before those that are not less.
  abbrev pub IsSortedBy : List A → Type 0
  IsSortedBy [] = Unit
  IsSortedBy (x ∷ xs) = All (λ y. le x y ≡ true) xs × IsSortedBy xs

  insert_by-perm : (x : A) (l : List A) → Perm (insert_by x l) (x ∷ l)
  unfolding insert_by
  insert_by-perm x [] = Perm.rfl
  insert_by-perm x (y ∷ ys) = elim (Bool-cases (le x y)) [
    | inl h ↦ rw h Perm.rfl
    | inr h ↦ rw h (Perm.trans (Perm.cons y (insert_by-perm x ys)) (Perm.swap x y ys))
  ]

  -- Sorting loses and invents nothing.
  pub sort_by-perm : (l : List A) → Perm (sort_by l) l
  unfolding sort_by
  sort_by-perm [] = Perm.rfl
  sort_by-perm (x ∷ xs) = Perm.trans (insert_by-perm x (sort_by xs)) (Perm.cons x (sort_by-perm xs))

  length-insert_by : (x : A) (l : List A) → length (insert_by x l) ≡ suc (length l)
  unfolding insert_by
  length-insert_by x [] = refl
  length-insert_by x (y ∷ ys) = ground (arith, length-insert_by x ys)

  pub length-sort_by : (l : List A) → length (sort_by l) ≡ length l
  unfolding sort_by
  length-sort_by [] = refl
  length-sort_by (x ∷ xs) = length-insert_by x (sort_by xs) ∙ ap suc (length-sort_by xs)

-- What `le` must satisfy for the sorted order to mean something.
pub record IsTotalOrder {ℓ} {A : Type ℓ} (le : A → A → Bool) : Type ℓ where
  pub trans : (a b c : A) → le a b ≡ true → le b c ≡ true → le a c ≡ true
  pub total : (a b : A) → le a b ≡ false → le b a ≡ true

module _ {ℓ} {A : Type ℓ} (le : A → A → Bool) (o : IsTotalOrder le) where
  All-trans :
      (x y : A) (l : List A)
      → le x y ≡ true
      → All (λ z. le y z ≡ true) l
      → All (λ z. le x z ≡ true) l
  All-trans x y [] h a = tt
  All-trans x y (z ∷ l) h a = (o.trans x y z h a.0, All-trans x y l h a.1)

  All-insert_by :
      (y x : A) (l : List A)
      → le y x ≡ true
      → All (λ z. le y z ≡ true) l
      → All (λ z. le y z ≡ true) (insert_by le x l)
  unfolding insert_by
  All-insert_by y x [] h a = (h, tt)
  All-insert_by y x (z ∷ l) h a = elim (Bool-cases (le x z)) [
    | inl e ↦ rw e (h, a)
    | inr e ↦ rw e (a.0, All-insert_by y x l h a.1)
  ]

  insert_by-IsSortedBy : (x : A) (l : List A) → IsSortedBy le l → IsSortedBy le (insert_by le x l)
  unfolding insert_by
  insert_by-IsSortedBy x [] s = (tt, tt)
  insert_by-IsSortedBy x (y ∷ ys) s = elim (Bool-cases (le x y)) [
    | inl e ↦ rw e ((e, All-trans x y ys e s.0), s)
    | inr e ↦ rw e (All-insert_by y x ys (o.total x y e) s.0, insert_by-IsSortedBy x ys s.1)
  ]

  -- The result of the sort is ascending.
  pub sort_by-IsSortedBy : (l : List A) → IsSortedBy le (sort_by le l)
  unfolding sort_by
  sort_by-IsSortedBy [] = tt
  sort_by-IsSortedBy (x ∷ xs) = insert_by-IsSortedBy x (sort_by le xs) (sort_by-IsSortedBy xs)
