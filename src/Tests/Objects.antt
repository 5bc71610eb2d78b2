-- ===== src/Tests/Objects.antt =====
-- Runs of the in-memory storage.
use replica_t.Common.{
  Text, text_eq, text_eq_iff, ◌≡◌, refl, List, [], ◌∷◌, map, arith, if◌then◌else◌,
}
use mathlib.Core.List.{flatten}
use replica_t.Types.Error.{ok}
use replica_t.Storage.HashMap.{get, insert}
use replica_t.Storage.InMemory.{
  calculate_etag, get_object, put_object, stored, read_body, InMemoryStorage,
}
use replica_t.Storage.InMemory.Objects.{
  IsWellFormed, get_object-put_object, put_object-IsWellFormed,
}
use replica_t.Tests.Data.{crypto, now, key, other_key, chunks, one_object, one_object-IsWellFormed}

get_object-put_object_example :
    ((put_object crypto now key (map ok chunks) one_object).0
      ≡ ok (calculate_etag crypto (flatten chunks)))
    × ((get_object other_key (put_object crypto now key (map ok chunks) one_object).1).0 ≡ (
        if text_eq key other_key
        then ok (ok (flatten chunks) ∷ [], (stored crypto now key (flatten chunks)).metadata)
        else (get_object other_key one_object).0))
get_object-put_object_example = get_object-put_object crypto now key chunks other_key one_object

-- Two objects, in either order of iteration.
abbrev pub two_objects : InMemoryStorage
two_objects = (key, stored crypto now key (9 ∷ [])) ∷ one_object

abbrev pub two_objects' : InMemoryStorage
two_objects' =
    (other_key, stored crypto now other_key (5 ∷ [])) ∷ (key, stored crypto now key (9 ∷ [])) ∷ []

pub two_objects'-IsWellFormed : IsWellFormed crypto two_objects'
unfolding put_object read_body insert text_eq
two_objects'-IsWellFormed =
    put_object-IsWellFormed crypto now key (ok (9 ∷ []) ∷ []) one_object one_object-IsWellFormed

pub two_objects-IsWellFormed : IsWellFormed crypto two_objects
unfolding get text_eq
two_objects-IsWellFormed = record {
  unique = (refl, (refl, tt));
  consistent = λ j o h.
      two_objects'-IsWellFormed.consistent j o
        (ground (arith, h, text_eq_iff key j, text_eq_iff other_key j));
}

pub same_objects : (k : Text) → get k two_objects ≡ get k two_objects'
unfolding get
same_objects k = ground (arith, text_eq_iff key k, text_eq_iff other_key k)
