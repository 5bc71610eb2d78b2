-- ===== src/Storage/InMemory/Objects.antt =====
-- What `put_object`, `get_object`, `head_object` and `delete_object` of in_memory.rs do together.
use replica_t.Common.{
  Text, text_eq, text_eq_iff, length, ◌≡◌, ◌⊎◌, inl, inr, Option-cases, refl, ap, some, List, [],
  ◌∷◌, ◌++◌, map, arith, if◌then◌else◌,
}
use mathlib.Core.List.{append_assoc, append-nil, flatten}
use replica_t.Crypto.{Crypto}
use replica_t.Types.Error.{Result, S3Error, ok, err, panic, no_such_key}
use replica_t.Types.Models.{DateTime, ObjectMetadata}
use replica_t.Storage.Backend.{Bytes, ObjectStream}
use replica_t.Storage.HashMap.{
  get, IsUnique, get-insert, get-remove, insert-IsUnique, remove-IsUnique,
}
use replica_t.Storage.InMemory.{
  StoredObject, InMemoryStorage, calculate_etag, head_object, get_object, read_body, stored,
  store_body, put_object, delete_object,
}

-- The loop joins the chunks.
pub read_body-flatten :
    (acc : Bytes) (chunks : List Bytes) → read_body acc (map ok chunks) ≡ ok (acc ++ flatten chunks)
unfolding read_body flatten
read_body-flatten acc [] = rw append-nil
read_body-flatten acc (b ∷ chunks) =
    rw (read_body-flatten (acc ++ b) chunks) (ap ok (append_assoc acc b (flatten chunks)))

read_body-err :
    (acc : Bytes) (chunks : List Bytes) (e : S3Error) (rest : ObjectStream)
    → read_body acc (map ok chunks ++ err e ∷ rest) ≡ err e
unfolding read_body
read_body-err acc [] e rest = refl
read_body-err acc (b ∷ chunks) e rest = read_body-err (acc ++ b) chunks e rest

-- A stored object under its key: `metadata` tells the truth about the data.
pub record IsConsistent (c : Crypto) (key : Text) (obj : StoredObject) : Type 0 where
  pub key_kept : obj.metadata.key ≡ key
  pub size_kept : obj.metadata.size ≡ length obj.data_bytes
  pub etag_kept : obj.metadata.etag ≡ calculate_etag c obj.data_bytes

pub record IsWellFormed (c : Crypto) (s : InMemoryStorage) : Type 0 where
  pub unique : IsUnique s
  pub consistent : (key : Text) (obj : StoredObject) → get key s ≡ some obj → IsConsistent c key obj

module _ (c : Crypto) (now : DateTime) (key : Text) where
  -- A PUT of a body in chunks, all of which arrive, does the same as a PUT of the joined body in
  -- one chunk: the same result, and the same map after it.
  pub put_object-flatten :
      (chunks : List Bytes) (s : InMemoryStorage)
      → put_object c now key (map ok chunks) s ≡ put_object c now key (ok (flatten chunks) ∷ []) s
  unfolding put_object read_body
  put_object-flatten chunks s = rw (read_body-flatten [] chunks)

  -- A PUT of a body that breaks off with an error after some chunks returns this error, and leaves
  -- the map as it was, whatever else the stream holds.
  pub put_object_broken :
      (chunks : List Bytes) (e : S3Error) (rest : ObjectStream) (s : InMemoryStorage)
      → put_object c now key (map ok chunks ++ err e ∷ rest) s ≡ (err e, s)
  unfolding put_object
  put_object_broken chunks e rest s = rw (read_body-err [] chunks e rest)

  -- A PUT whose chunks all arrive returns the ETag of the joined body; afterwards a GET of the key
  -- returns the body, in one chunk, with the metadata of this PUT, and a GET of another key returns
  -- what it did before.
  pub get_object-put_object :
      (chunks : List Bytes) (j : Text) (s : InMemoryStorage)
      → ((put_object c now key (map ok chunks) s).0 ≡ ok (calculate_etag c (flatten chunks)))
        × ((get_object j (put_object c now key (map ok chunks) s).1).0 ≡ (
            if text_eq key j
            then ok (ok (flatten chunks) ∷ [], (stored c now key (flatten chunks)).metadata)
            else (get_object j s).0))
  unfolding put_object get_object
  get_object-put_object chunks j s =
      rw (read_body-flatten [] chunks)
        (refl, ground (arith, get-insert key j (stored c now key (flatten chunks)) s))

  store_body-IsWellFormed :
      (body : Result Bytes) (s : InMemoryStorage)
      → IsWellFormed c s
      → IsWellFormed c (store_body c now key body s).1
  unfolding store_body
  store_body-IsWellFormed (ok bytes) s w = record {
    unique = insert-IsUnique key (stored c now key bytes) s w.unique;
    consistent = λ j obj h.
        ground (
          arith,
          get-insert key j (stored c now key bytes) s,
          text_eq_iff key j,
          w.consistent j obj,
        );
  }
  store_body-IsWellFormed (err e) s w = w
  store_body-IsWellFormed panic s w = w

  -- A PUT of any body keeps the map well-formed: its keys are unique, and each stored object's key,
  -- size and ETag are those of the key it stands under and of its data.
  pub put_object-IsWellFormed :
      (body : ObjectStream) (s : InMemoryStorage)
      → IsWellFormed c s
      → IsWellFormed c (put_object c now key body s).1
  unfolding put_object
  put_object-IsWellFormed body s w = store_body-IsWellFormed (read_body [] body) s w

-- After a DELETE, a GET of the key returns NoSuchKey, and a GET of another key what it did before.
pub get_object-delete_object :
    (key j : Text) (s : InMemoryStorage)
    → (get_object j (delete_object key s).1).0
      ≡ (if text_eq key j then err no_such_key else (get_object j s).0)
unfolding get_object delete_object
get_object-delete_object key j s = ground (arith, get-remove key j s)

-- A DELETE keeps the map well-formed.
pub delete_object-IsWellFormed :
    (c : Crypto) (key : Text) (s : InMemoryStorage)
    → IsWellFormed c s
    → IsWellFormed c (delete_object key s).1
unfolding delete_object
delete_object-IsWellFormed c key s w = record {
  unique = remove-IsUnique key s w.unique;
  consistent = λ j obj h. w.consistent j obj (ground (arith, get-remove key j s));
}

-- A HEAD or a GET finds the object or not, and changes nothing.
pub head_object_cases :
    (key : Text) (s : InMemoryStorage)
    → (head_object key s ≡ (err no_such_key, s))
      ⊎ ((a : ObjectMetadata) × (head_object key s ≡ (ok a, s)))
unfolding head_object
head_object_cases key s = elim (Option-cases (get key s)) [
  | inl e ↦ inl (rw e refl)
  | inr (obj, e) ↦ inr (obj.metadata, rw e refl)
]

pub get_object_cases :
    (key : Text) (s : InMemoryStorage)
    → (get_object key s ≡ (err no_such_key, s))
      ⊎ ((a : ObjectStream × ObjectMetadata) × (get_object key s ≡ (ok a, s)))
unfolding get_object
get_object_cases key s = elim (Option-cases (get key s)) [
  | inl e ↦ inl (rw e refl)
  | inr (obj, e) ↦ inr ((ok obj.data_bytes ∷ [], obj.metadata), rw e refl)
]
