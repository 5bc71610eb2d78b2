-- ===== src/Storage/HashMap.antt =====
-- `HashMap<String, V>` as an association list. The order of its entries stands for the order of
-- iteration, which the source leaves open; what depends on it is proved not to show.
use replica_t.Common.{
  Text, text_eq, text_eq_iff, ◌≡◌, refl, Option, none, some, List, [], ◌∷◌, arith, if◌then◌else◌,
}

abbrev pub HashMap {ℓ} : Type ℓ → Type ℓ
HashMap V = List (Text × V)

module _ {ℓ} {V : Type ℓ} where
  unfoldable pub get : Text → HashMap V → Option V
  get k [] = none
  get k ((j, v) ∷ m) = if text_eq j k then some v else get k m

  unfoldable pub insert : Text → V → HashMap V → HashMap V
  insert k v [] = (k, v) ∷ []
  insert k v ((j, w) ∷ m) = if text_eq j k then (k, v) ∷ m else (j, w) ∷ insert k v m

  unfoldable pub remove : Text → HashMap V → HashMap V
  remove k [] = []
  remove k ((j, v) ∷ m) = let rest = remove k m in if text_eq j k then rest else (j, v) ∷ rest

  -- No key stands twice, as in every `HashMap`.
  abbrev pub IsUnique : HashMap V → Type ℓ
  IsUnique [] = Unit
  IsUnique ((k, v) ∷ m) = (get k m ≡ none) × IsUnique m

  pub get-insert :
      (k j : Text) (v : V) (m : HashMap V)
      → get j (insert k v m) ≡ (if text_eq k j then some v else get j m)
  unfolding get insert
  get-insert k j v [] = refl
  get-insert k j v ((i, w) ∷ m) =
      ground (arith, text_eq_iff i k, text_eq_iff i j, text_eq_iff k j, get-insert k j v m)

  pub get-remove :
      (k j : Text) (m : HashMap V) → get j (remove k m) ≡ (if text_eq k j then none else get j m)
  unfolding get remove
  get-remove k j [] = ground arith
  get-remove k j ((i, w) ∷ m) =
      ground (arith, text_eq_iff i k, text_eq_iff i j, text_eq_iff k j, get-remove k j m)

  pub insert-IsUnique : (k : Text) (v : V) (m : HashMap V) → IsUnique m → IsUnique (insert k v m)
  unfolding get insert
  insert-IsUnique k v [] u = (refl, tt)
  insert-IsUnique k v ((j, w) ∷ m) u =
      ground
        (arith, text_eq_iff j k, text_eq_iff k j, get-insert k j v m, insert-IsUnique k v m u.1)

  pub remove-IsUnique : (k : Text) (m : HashMap V) → IsUnique m → IsUnique (remove k m)
  unfolding get remove
  remove-IsUnique k [] u = tt
  remove-IsUnique k ((j, w) ∷ m) u =
      ground (arith, text_eq_iff k j, get-remove k j m, remove-IsUnique k m u.1)
