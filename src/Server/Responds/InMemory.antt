-- ===== src/Server/Responds/InMemory.antt =====
-- The calls of in_memory.rs, and panics.
use replica_t.Common.{Text, Option-cases, inl, inr, [], ◌∷◌, ◌++◌, ◌≢◌, refl, arith}
use replica_t.Crypto.{Crypto}
use replica_t.Types.Error.{Result, ok, err, panic}
use replica_t.Types.Models.{DateTime}
use replica_t.Storage.Backend.{Bytes, ObjectStream}
use replica_t.Storage.HashMap.{get}
use replica_t.Storage.InMemory.{
  InMemoryStorage, in_memory_storage, head_bucket, list_objects, head_object, get_object, read_body,
  store_body, put_object, delete_object,
}
use replica_t.Server.Responds.{IsCalm, IsCalmStream}

read_body-ne-panic :
    (acc : Bytes) (body : ObjectStream) → IsCalmStream body → read_body acc body ≢ panic
unfolding read_body
read_body-ne-panic acc [] h e = ground (arith, e)
read_body-ne-panic acc (ok b ∷ body) h e = read_body-ne-panic (acc ++ b) body h.1 e
read_body-ne-panic acc (err x ∷ body) h e = ground (arith, e)
read_body-ne-panic acc (panic ∷ body) h e = absurd (h.0 refl)

store_body-ne-panic :
    (c : Crypto) (now : DateTime) (key : Text) (body : Result Bytes) (s : InMemoryStorage)
    → body ≢ panic
    → (store_body c now key body s).0 ≢ panic
unfolding store_body
store_body-ne-panic c now key (ok b) s h e = ground (arith, e)
store_body-ne-panic c now key (err x) s h e = ground (arith, e)
store_body-ne-panic c now key panic s h e = absurd (h refl)

head_object-ne-panic : (key : Text) (s : InMemoryStorage) → (head_object key s).0 ≢ panic
unfolding head_object
head_object-ne-panic key s h = elim (Option-cases (get key s)) [
  | inl e ↦ ground (arith, e, h)
  | inr (obj, e) ↦ ground (arith, e, h)
]

get_object-ne-panic : (key : Text) (s : InMemoryStorage) → (get_object key s).0 ≢ panic
unfolding get_object
get_object-ne-panic key s h = elim (Option-cases (get key s)) [
  | inl e ↦ ground (arith, e, h)
  | inr (obj, e) ↦ ground (arith, e, h)
]

pub in_memory_storage-IsCalm : (c : Crypto) (now : DateTime) → IsCalm (in_memory_storage c now)
unfolding in_memory_storage head_bucket list_objects put_object delete_object
in_memory_storage-IsCalm c now = record {
  head_bucket_calm = λ s e. ground (arith, e);
  list_objects_calm = λ prefix n s e. ground (arith, e);
  head_object_calm = head_object-ne-panic;
  get_object_calm = get_object-ne-panic;
  put_object_calm = λ key body s h.
      store_body-ne-panic c now key (read_body [] body) s (read_body-ne-panic [] body h);
  delete_object_calm = λ key s e. ground (arith, e);
}
