-- ===== src/Storage/InMemory/Page.antt =====
-- The page that `list_objects` of in_memory.rs returns: ascending, cut at `max_keys`, and the same
-- whatever the order in which the map is iterated.
use replica_t.Common.{
  ℕ, zero, suc, ℤ, ◌≤◌, Text, length, take, take_all, as_usize, length-sort_by, All, ◌≡◌, refl, ◌∙◌,
  true, Option, none, List, [], ◌∷◌, arith, if◌then◌else◌,
}
use replica_t.Crypto.{Crypto}
use replica_t.Types.Error.{ok}
use replica_t.Types.Models.{ObjectMetadata}
use replica_t.Storage.HashMap.{get}
use replica_t.Storage.InMemory.{InMemoryStorage, matches_prefix, matching, key_le, list_objects}
use replica_t.Storage.InMemory.Objects.{IsWellFormed}
use replica_t.Storage.InMemory.Listing.{
  find_key, IsUniqueListing, sorted_eq, metadata_of, listing, listing_unique, listing_sorted,
  listing_finds,
}

-- Above `m` stands nothing of a page from which `m` was cut.
abbrev pub AllBefore : ObjectMetadata → List ObjectMetadata → Type 0
AllBefore m = All (λ x. key_le x m ≡ true)

find_key-take-none :
    (k : Text) (n : ℕ) (l : List ObjectMetadata)
    → find_key k l ≡ none
    → find_key k (take n l) ≡ none
unfolding find_key
find_key-take-none k zero l h = refl
find_key-take-none k (suc n) [] h = h
find_key-take-none k (suc n) (x ∷ l) h = ground (arith, find_key-take-none k n l)

pub take-IsUniqueListing :
    (n : ℕ) (l : List ObjectMetadata) → IsUniqueListing l → IsUniqueListing (take n l)
take-IsUniqueListing zero l u = tt
take-IsUniqueListing (suc n) [] u = tt
take-IsUniqueListing (suc n) (x ∷ l) u =
    (find_key-take-none x.key n l u.0, take-IsUniqueListing n l u.1)

module _ (c : Crypto) (p : Option Text) (max_keys : ℤ) where
  -- Where at most `max_keys as usize` keys match, the page is complete: a key is found exactly if
  -- it is stored and has the prefix, with the metadata that is stored.
  list_objects_complete :
      (s : InMemoryStorage)
      → IsWellFormed c s
      → length (matching p s) ≤ as_usize max_keys
      → (page : List ObjectMetadata) × (list_objects p max_keys s ≡ (ok page, s))
        × ((k : Text)
            → find_key k page ≡ (if matches_prefix p k then metadata_of (get k s) else none))
  unfolding list_objects
  list_objects_complete s w fits =
      let whole : take (as_usize max_keys) (listing p s) ≡ listing p s =
        take_all (as_usize max_keys) (listing p s)
          (omega (arith, length-sort_by key_le (matching p s))) in
      (listing p s, rw whole, listing_finds c p s w)

  -- Two well-formed maps that hold the same objects list the same page: the order of iteration
  -- does not show.
  pub list_objects_order :
      (s t : InMemoryStorage)
      → IsWellFormed c s
      → IsWellFormed c t
      → ((k : Text) → get k s ≡ get k t)
      → (list_objects p max_keys s).0 ≡ (list_objects p max_keys t).0
  unfolding list_objects
  list_objects_order s t ws wt same =
      let equal : listing p s ≡ listing p t =
        sorted_eq (listing p s) (listing p t) (listing_sorted c p s ws) (listing_sorted c p t wt)
          (listing_unique c p s ws) (listing_unique c p t wt)
          λ k. listing_finds c p s ws k ∙ rw (same k, ← listing_finds c p t wt k) in
      rw equal
