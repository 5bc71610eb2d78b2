-- ===== src/Storage/InMemory.antt =====
-- storage/in_memory.rs: objects in a map behind a lock. A call takes the lock once, so it is one
-- function on the map; the clock's reading is an argument.
pub mod Listing
pub mod Objects
pub mod Observed
pub mod Page
use replica_t.Common.{
  ℤ, Text, text, starts_with, text_le, sort_by, as_usize, take, length, Bool, true, Option, none,
  some, List, [], ◌∷◌, ◌++◌, if◌then◌else◌,
}
use replica_t.Crypto.{Crypto}
use replica_t.Types.Error.{Result, ok, err, panic, no_such_key, ◌>>=◌}
use replica_t.Types.Models.{ObjectMetadata, DateTime}
use replica_t.Storage.Backend.{Bytes, ObjectStream, Call, StorageBackend}
use replica_t.Storage.HashMap.{HashMap, get, insert, remove}

pub record StoredObject : Type 0 where
  pub data_bytes : Bytes
  pub metadata : ObjectMetadata

abbrev pub InMemoryStorage : Type 0
InMemoryStorage = HashMap StoredObject

abbrev pub new : InMemoryStorage
new = []

unfoldable pub calculate_etag : Crypto → Bytes → Text
calculate_etag c data_bytes = b'"' ∷ c.hex_encode (c.sha256 data_bytes) ++ b'"' ∷ []

unfoldable pub head_bucket : Call InMemoryStorage (Unit {0})
head_bucket objects = (ok tt, objects)

-- The filter of `list_objects`: without a prefix every key stays.
unfoldable pub matches_prefix : Option Text → Text → Bool
matches_prefix none key = true
matches_prefix (some p) key = starts_with key p

unfoldable pub matching : Option Text → InMemoryStorage → List ObjectMetadata
matching p [] = []
matching p ((key, obj) ∷ rest) =
    let others = matching p rest in if matches_prefix p key then obj.metadata ∷ others else others

unfoldable pub key_le : ObjectMetadata → ObjectMetadata → Bool
key_le a b = text_le a.key b.key

unfoldable pub list_objects : Option Text → ℤ → Call InMemoryStorage (List ObjectMetadata)
list_objects p max_keys objects =
    (ok (take (as_usize max_keys) (sort_by key_le (matching p objects))), objects)

unfoldable pub head_object : Text → Call InMemoryStorage ObjectMetadata
head_object key objects =
    (elim (get key objects) [ none ↦ err no_such_key | some obj ↦ ok obj.metadata ], objects)

-- The data comes as a stream of one chunk.
unfoldable pub get_object : Text → Call InMemoryStorage (ObjectStream × ObjectMetadata)
get_object key objects = (
  elim (get key objects) [
    | none ↦ err no_such_key
    | some obj ↦ ok (ok obj.data_bytes ∷ [], obj.metadata)
  ],
  objects,
)

-- The loop of `put_object` that collects the body: the first error ends it.
unfoldable pub read_body : Bytes → ObjectStream → Result Bytes
read_body acc [] = ok acc
read_body acc (chunk ∷ rest) = chunk >>= λ bytes. read_body (acc ++ bytes) rest

unfoldable pub stored : Crypto → DateTime → Text → Bytes → StoredObject
stored c now key bytes = record {
  data_bytes = bytes;
  metadata = record {
    key = key;
    size = length bytes;
    etag = calculate_etag c bytes;
    last_modified = now;
    content_type = text "binary/octet-stream";
  };
}

-- After the loop: the object is stored only if the body was read to its end.
unfoldable pub store_body : Crypto → DateTime → Text → Result Bytes → Call InMemoryStorage Text
unfolding stored
store_body c now key (ok bytes) objects =
    (ok (calculate_etag c bytes), insert key (stored c now key bytes) objects)
store_body c now key (err e) objects = (err e, objects)
store_body c now key panic objects = (panic, objects)

unfoldable pub put_object : Crypto → DateTime → Text → ObjectStream → Call InMemoryStorage Text
unfolding store_body
put_object c now key body objects = store_body c now key (read_body [] body) objects

unfoldable pub delete_object : Text → Call InMemoryStorage (Unit {0})
delete_object key objects = (ok tt, remove key objects)

-- `impl StorageBackend for InMemoryStorage`, at a reading of the clock.
unfoldable pub in_memory_storage : Crypto → DateTime → StorageBackend InMemoryStorage
in_memory_storage c now = record {
  head_bucket = head_bucket;
  list_objects = list_objects;
  head_object = head_object;
  get_object = get_object;
  put_object = put_object c now;
  delete_object = delete_object;
}
