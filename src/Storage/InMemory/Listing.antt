-- ===== src/Storage/InMemory/Listing.antt =====
-- What `list_objects` of in_memory.rs returns.
use replica_t.Common.{
  Text, text_eq, text_eq_iff, text_eq_refl, text_le-IsTotalOrder, text_le_antisymm, sort_by,
  IsSortedBy, sort_by-IsSortedBy, IsTotalOrder, insert_by, All, ◌≡◌, refl, ◌∙◌, true, Option, none,
  some, List, [], ◌∷◌, arith, if◌then◌else◌,
}
use replica_t.Crypto.{Crypto}
use replica_t.Types.Models.{ObjectMetadata}
use replica_t.Storage.HashMap.{get, IsUnique}
use replica_t.Storage.InMemory.{StoredObject, InMemoryStorage, matches_prefix, matching, key_le}
use replica_t.Storage.InMemory.Objects.{IsWellFormed}

-- The first entry of a listing for a key.
unfoldable pub find_key : Text → List ObjectMetadata → Option ObjectMetadata
find_key k [] = none
find_key k (m ∷ ms) = if text_eq m.key k then some m else find_key k ms

-- No key is listed twice.
abbrev pub IsUniqueListing : List ObjectMetadata → Type 0
IsUniqueListing [] = Unit
IsUniqueListing (m ∷ ms) = (find_key m.key ms ≡ none) × IsUniqueListing ms

key_le-IsTotalOrder : IsTotalOrder key_le
unfolding key_le
key_le-IsTotalOrder = record {
  trans = λ a b c. text_le-IsTotalOrder.trans a.key b.key c.key;
  total = λ a b. text_le-IsTotalOrder.total a.key b.key;
}

find_key-insert_by :
    (k : Text) (m : ObjectMetadata) (l : List ObjectMetadata)
    → find_key m.key l ≡ none
    → find_key k (insert_by key_le m l) ≡ (if text_eq m.key k then some m else find_key k l)
unfolding find_key sort_by
find_key-insert_by k m [] h = refl
find_key-insert_by k m (x ∷ l) h = ground (
  arith,
  find_key-insert_by k m l,
  text_eq_iff x.key m.key,
  text_eq_iff m.key k,
  text_eq_iff x.key k,
)

-- Sorting a listing without repeated keys finds what was there.
find_key-sort_by :
    (l : List ObjectMetadata)
    → IsUniqueListing l
    → (k : Text) → find_key k (sort_by key_le l) ≡ find_key k l
unfolding find_key sort_by
find_key-sort_by [] u k = refl
find_key-sort_by (m ∷ l) u k =
    let absent : find_key m.key (sort_by key_le l) ≡ none = rw (find_key-sort_by l u.1 m.key) u.0 in
    find_key-insert_by k m (sort_by key_le l) absent ∙ rw (find_key-sort_by l u.1 k)

IsUniqueListing-insert_by :
    (m : ObjectMetadata) (l : List ObjectMetadata)
    → find_key m.key l ≡ none
    → IsUniqueListing l
    → IsUniqueListing (insert_by key_le m l)
unfolding find_key insert_by
IsUniqueListing-insert_by m [] h u = (refl, tt)
IsUniqueListing-insert_by m (x ∷ l) h u = ground (
  arith,
  find_key-insert_by x.key m l,
  text_eq_iff x.key m.key,
  text_eq_iff m.key x.key,
  IsUniqueListing-insert_by m l,
)

IsUniqueListing-sort_by :
    (l : List ObjectMetadata) → IsUniqueListing l → IsUniqueListing (sort_by key_le l)
unfolding sort_by
IsUniqueListing-sort_by [] u = tt
IsUniqueListing-sort_by (m ∷ l) u =
    IsUniqueListing-insert_by m (sort_by key_le l) (rw (find_key-sort_by l u.1 m.key) u.0)
      (IsUniqueListing-sort_by l u.1)

-- What is found among members that stand above `y` stands above `y`.
pub key_le-find_key :
    (y m : ObjectMetadata) (k : Text) (l : List ObjectMetadata)
    → All (λ z. key_le y z ≡ true) l
    → find_key k l ≡ some m
    → key_le y m ≡ true
unfolding find_key
key_le-find_key y m k [] a h = ground arith
key_le-find_key y m k (z ∷ l) a h = ground (arith, a.0, a.1, key_le-find_key y m k l)

heads_eq :
    (x y : ObjectMetadata) (l r : List ObjectMetadata)
    → IsSortedBy key_le (x ∷ l)
    → IsSortedBy key_le (y ∷ r)
    → ((k : Text) → find_key k (x ∷ l) ≡ find_key k (y ∷ r))
    → x ≡ y
unfolding find_key key_le
heads_eq x y l r sl sr same = ground (
  arith,
  same x.key,
  same y.key,
  text_eq_refl x.key,
  text_eq_refl y.key,
  text_eq_iff x.key y.key,
  text_eq_iff y.key x.key,
  key_le-find_key y x x.key r sr.0,
  key_le-find_key x y y.key l sl.0,
  text_le_antisymm x.key y.key,
)

-- An ascending listing without repeated keys is determined by what it finds.
pub sorted_eq :
    (l r : List ObjectMetadata)
    → IsSortedBy key_le l
    → IsSortedBy key_le r
    → IsUniqueListing l
    → IsUniqueListing r
    → ((k : Text) → find_key k l ≡ find_key k r)
    → l ≡ r
unfolding find_key
sorted_eq [] [] sl sr ul ur same = refl
sorted_eq [] (y ∷ r) sl sr ul ur same = ground (arith, same y.key, text_eq_refl y.key)
sorted_eq (x ∷ l) [] sl sr ul ur same = ground (arith, same x.key, text_eq_refl x.key)
sorted_eq (x ∷ l) (y ∷ r) sl sr ul ur same =
    let e = heads_eq x y l r sl sr same in
    let tails : (k : Text) → find_key k l ≡ find_key k r =
      λ k. ground (arith, same k, text_eq_iff x.key k, ul.0, ur.0, e) in
    ground (arith, e, sorted_eq l r sl.1 sr.1 ul.1 ur.1 tails)

abbrev KeysKept : InMemoryStorage → Type 0
KeysKept s = All (λ e. e.1.metadata.key ≡ e.0) s

KeysKept-of :
    (s : InMemoryStorage)
    → IsUnique s
    → ((k : Text) (o : StoredObject) → get k s ≡ some o → o.metadata.key ≡ k)
    → KeysKept s
unfolding get
KeysKept-of [] u h = tt
KeysKept-of ((k, o) ∷ s) u h = (
  h k o (rw text_eq_refl),
  KeysKept-of s u.1 λ j q e. h j q (ground (arith, text_eq_iff k j, u.0, e)),
)

abbrev pub metadata_of : Option StoredObject → Option ObjectMetadata
metadata_of none = none
metadata_of (some o) = some o.metadata

find_key-matching :
    (p : Option Text) (s : InMemoryStorage)
    → KeysKept s
    → (k : Text)
    → find_key k (matching p s) ≡ (if matches_prefix p k then metadata_of (get k s) else none)
unfolding find_key matching get
find_key-matching p [] h k = ground arith
find_key-matching p ((j, o) ∷ s) h k =
    ground (arith, h.0, find_key-matching p s h.1 k, text_eq_iff j k)

IsUniqueListing-matching :
    (p : Option Text) (s : InMemoryStorage)
    → KeysKept s
    → IsUnique s
    → IsUniqueListing (matching p s)
unfolding find_key matching
IsUniqueListing-matching p [] h u = tt
IsUniqueListing-matching p ((j, o) ∷ s) h u =
    ground (arith, h.0, find_key-matching p s h.1 j, IsUniqueListing-matching p s h.1 u.1, u.0)

-- The whole listing, before the cut at `max_keys`.
abbrev pub listing : Option Text → InMemoryStorage → List ObjectMetadata
listing p s = sort_by key_le (matching p s)

module _ (c : Crypto) (p : Option Text) (s : InMemoryStorage) (w : IsWellFormed c s) where
  keys_kept : KeysKept s
  keys_kept = KeysKept-of s w.unique λ k o e. (w.consistent k o e).key_kept

  pub listing_unique : IsUniqueListing (listing p s)
  listing_unique =
      IsUniqueListing-sort_by (matching p s) (IsUniqueListing-matching p s keys_kept w.unique)

  pub listing_sorted : IsSortedBy key_le (listing p s)
  listing_sorted = sort_by-IsSortedBy key_le key_le-IsTotalOrder (matching p s)

  pub listing_finds :
      (k : Text)
      → find_key k (listing p s) ≡ (if matches_prefix p k then metadata_of (get k s) else none)
  listing_finds k =
      find_key-sort_by (matching p s) (IsUniqueListing-matching p s keys_kept w.unique) k
      ∙ find_key-matching p s keys_kept k
