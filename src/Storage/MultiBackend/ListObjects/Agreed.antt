-- ===== src/Storage/MultiBackend/ListObjects/Agreed.antt =====
-- Listings of backends that all list the same objects, no key twice.
use replica_t.Common.{
  ℕ, zero, suc, ℤ, ◌<◌, Text, text_eq_iff, ◌≡◌, refl, sym, ap, ◌∙◌, Option, none, some, List, [],
  ◌∷◌, map, length, replicate, length-replicate, map-replicate, get_elem?-replicate, All, All-map,
  enumerate_from, arith, false,
}
use replica_t.Types.Error.{ok}
use replica_t.Types.Models.{ObjectMetadata}
use replica_t.Config.Modes.{ReadMode, primary_only, primary_fallback, best_effort, all_consistent}
use replica_t.Storage.HashMap.{HashMap, get, insert, get-insert}
use replica_t.Storage.InMemory.Listing.{find_key, IsUniqueListing}
use replica_t.Storage.Schedule.{IsSchedule}
use replica_t.Storage.Schedule.Agreed.{AllAnswer}
use replica_t.Storage.MultiBackend.{MultiBackend}
use replica_t.Storage.MultiBackend.Utils.{on_result}
use replica_t.Storage.MultiBackend.Utils.Agreed.{
  primary_gives, on_primary_gives, joined_gives, race_all_backends_agreed,
}
use replica_t.Storage.MultiBackend.ListObjects.{
  all_failed, etags_by_key, list_objects_primary_fallback, list_objects_all_consistent,
  list_objects_impl, list_objects,
}
use replica_t.Storage.MultiBackend.ListObjects.Consistent.{
  Matches, OthersMatch, list_objects_all_consistent-ok_iff,
}

-- What the map of the ETags holds after the listing: its own entries, then the older ones.
abbrev etag_or : Option ObjectMetadata → Option Text → Option Text
etag_or none older = older
etag_or (some o) older = some o.etag

get-etags_by_key :
    (k : Text) (m : HashMap Text) (l : List ObjectMetadata)
    → IsUniqueListing l
    → get k (etags_by_key m l) ≡ etag_or (find_key k l) (get k m)
unfolding etags_by_key find_key
get-etags_by_key k m [] u = refl
get-etags_by_key k m (o ∷ l) u = ground (
  arith,
  u.0,
  get-etags_by_key k (insert o.key o.etag m) l u.1,
  get-insert o.key k o.etag m,
  text_eq_iff o.key k,
)

-- Each object of such a listing is found under its key.
All-find_key :
    (l : List ObjectMetadata) → IsUniqueListing l → All (λ o. find_key o.key l ≡ some o) l
unfolding find_key
All-find_key [] u = tt
All-find_key (x ∷ l) u = (
  ground (arith, text_eq_iff x.key x.key),
  All-map (λ o. find_key o.key l ≡ some o) (λ o. find_key o.key (x ∷ l) ≡ some o) l
      (λ o h. ground (arith, h, u.0, text_eq_iff x.key o.key)) (All-find_key l u.1),
)

Matches-self : (l : List ObjectMetadata) → IsUniqueListing l → Matches l l
Matches-self l u = (
  refl,
  All-map (λ o. find_key o.key l ≡ some o) _ l (λ o h. get-etags_by_key o.key [] l u ∙ rw h refl)
      (All-find_key l u),
)

OthersMatch-replicate :
    (p : ℕ) (l : List ObjectMetadata) (i n : ℕ)
    → IsUniqueListing l
    → OthersMatch p l i (replicate n l)
OthersMatch-replicate p l i zero u = tt
OthersMatch-replicate p l i (suc n) u =
    (λ other. Matches-self l u, OthersMatch-replicate p l (suc i) n u)

module _ {W : Type 0} (m : MultiBackend W) (order : List ℕ) (prefix : Option Text) (max_keys : ℤ)
    (l : List ObjectMetadata) (w : W) (in_bounds : m.primary_index < length m.backends)
    (s : IsSchedule (length m.backends) order) (u : IsUniqueListing l)
    (all : AllAnswer (map (λ b. b.list_objects prefix max_keys) m.backends) l w) where
  list_objects_primary_fallback_agreed :
      list_objects_primary_fallback m prefix max_keys w ≡ (ok l, w)
  unfolding list_objects_primary_fallback on_result
  list_objects_primary_fallback_agreed =
      let (b, e, h) =
        primary_gives m (λ b. b.list_objects prefix max_keys) (ok l) w in_bounds all in
      rw (e, list_objects_primary_fallback) (rw (h, on_result))

  list_objects_all_consistent_agreed :
      list_objects_all_consistent m order prefix max_keys w ≡ (ok l, w)
  list_objects_all_consistent_agreed =
      let n = length m.backends in
      let joined =
        joined_gives m (λ b. b.list_objects prefix max_keys) (ok l) w in_bounds all order s
          (λ h. cc) in
      let answer : (list_objects_all_consistent m order prefix max_keys w).0 ≡ ok l =
        (list_objects_all_consistent-ok_iff m order prefix max_keys w l s).1 (
          replicate n l,
          ap (λ out. out.0) joined ∙ ap (λ r. ok (enumerate_from 0 r)) (sym (map-replicate ok n l)),
          length-replicate n l,
          get_elem?-replicate n m.primary_index l in_bounds,
          OthersMatch-replicate m.primary_index l 0 n u,
        ) in
      let world : (list_objects_all_consistent m order prefix max_keys w).1 ≡ w =
        unfold list_objects_all_consistent in ap (λ out. out.1) joined in
      λ i. (answer i, world i)

  list_by_mode : (mode : ReadMode) → list_objects_impl m order prefix max_keys mode w ≡ (ok l, w)
  unfolding list_objects_impl
  list_by_mode primary_only = on_primary_gives m _ (ok l) w in_bounds all
  list_by_mode primary_fallback = list_objects_primary_fallback_agreed
  list_by_mode best_effort =
      race_all_backends_agreed m _ l w in_bounds all (λ _. false) all_failed order s
  list_by_mode all_consistent = list_objects_all_consistent_agreed

  -- Where every backend would list the same objects, no key twice, and change nothing, a LIST
  -- returns just those, in every read mode, and changes nothing.
  pub list_objects_agreed : list_objects m order prefix max_keys w ≡ (ok l, w)
  unfolding list_objects
  list_objects_agreed = list_by_mode m.read_mode
