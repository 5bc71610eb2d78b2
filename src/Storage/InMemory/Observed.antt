-- ===== src/Storage/InMemory/Observed.antt =====
-- What a client can see of an in-memory storage: the objects, and not the order in which its map is
-- iterated.
use replica_t.Common.{Text, ◌≡◌, refl, ap, Option, none, some, [], ◌∷◌}
use replica_t.Crypto.{Crypto}
use replica_t.Types.Error.{Result, ok, err, panic, no_such_key}
use replica_t.Types.Models.{DateTime, ObjectMetadata}
use replica_t.Storage.Backend.{Bytes, ObjectStream}
use replica_t.Storage.HashMap.{get, get-insert, get-remove}
use replica_t.Storage.Simulation.{Alike, Simulates}
use replica_t.Storage.InMemory.{
  read_body, store_body, StoredObject, InMemoryStorage, in_memory_storage, head_bucket,
  list_objects, head_object, get_object, put_object, delete_object, stored,
}
use replica_t.Storage.InMemory.Objects.{
  IsWellFormed, put_object-IsWellFormed, delete_object-IsWellFormed,
}
use replica_t.Storage.InMemory.Page.{list_objects_order}

-- Two well-formed maps with the same objects.
pub record SameObjects (c : Crypto) (s t : InMemoryStorage) : Type 0 where
  pub left : IsWellFormed c s
  pub right : IsWellFormed c t
  pub same_get : (k : Text) → get k s ≡ get k t

head_object-congr :
    (key : Text) (s t : InMemoryStorage)
    → get key s ≡ get key t
    → (head_object key s).0 ≡ (head_object key t).0
unfolding head_object
head_object-congr key s t h =
    ap {B = Result ObjectMetadata}
      (λ (o : Option StoredObject). elim o [ none ↦ err no_such_key | some obj ↦ ok obj.metadata ])
      h

get_object-congr :
    (key : Text) (s t : InMemoryStorage)
    → get key s ≡ get key t
    → (get_object key s).0 ≡ (get_object key t).0
unfolding get_object
get_object-congr key s t h =
    ap {B = Result (ObjectStream × ObjectMetadata)}
      (λ (o : Option StoredObject). elim o [
        | none ↦ err no_such_key
        | some obj ↦ ok (ok obj.data_bytes ∷ [], obj.metadata)
      ])
      h

module _ (c : Crypto) (now : DateTime) where
  store_body-get :
      (key k : Text) (body : Result Bytes) (s t : InMemoryStorage)
      → get k s ≡ get k t
      → get k (store_body c now key body s).1 ≡ get k (store_body c now key body t).1
  unfolding store_body
  store_body-get key k (ok data_bytes) s t h =
      rw (get-insert key k (stored c now key data_bytes) s)
        (rw (get-insert key k (stored c now key data_bytes) t) (rw h refl))
  store_body-get key k (err e) s t h = h
  store_body-get key k panic s t h = h

  -- A PUT answers by its body alone.
  store_body-result :
      (key : Text) (body : Result Bytes) (s t : InMemoryStorage)
      → (store_body c now key body s).0 ≡ (store_body c now key body t).0
  unfolding store_body
  store_body-result key (ok data_bytes) s t = refl
  store_body-result key (err e) s t = refl
  store_body-result key panic s t = refl

  put_object-Alike :
      (key : Text) (body : ObjectStream) (s t : InMemoryStorage)
      → SameObjects c s t
      → Alike (SameObjects c) (put_object c now key body s) (put_object c now key body t)
  unfolding put_object
  put_object-Alike key body s t h = record {
    same = store_body-result key (read_body [] body) s t;
    related = record {
      left = put_object-IsWellFormed c now key body s h.left;
      right = put_object-IsWellFormed c now key body t h.right;
      same_get = λ k. store_body-get key k (read_body [] body) s t (h.same_get k);
    };
  }

  -- The in-memory storage does not show the order of its map: on maps with the same objects, every
  -- call ends alike, whatever the body of a PUT.
  pub in_memory_storage-order :
      Simulates
        (SameObjects c)
        (λ body. Unit {0})
        (in_memory_storage c now)
        (in_memory_storage c now)
  unfolding in_memory_storage head_bucket list_objects delete_object head_object get_object
  in_memory_storage-order = record {
    head_bucket_alike = λ s t h. record { same = refl; related = h };
    list_objects_alike = λ prefix max_keys s t h. record {
      same = list_objects_order c prefix max_keys s t h.left h.right h.same_get;
      related = h;
    };
    head_object_alike =
        λ key s t h. record { same = head_object-congr key s t (h.same_get key); related = h };
    get_object_alike =
        λ key s t h. record { same = get_object-congr key s t (h.same_get key); related = h };
    put_object_alike = λ key body s t fine h. put_object-Alike key body s t h;
    delete_object_alike = λ key s t h. record {
      same = refl;
      related = record {
        left = delete_object-IsWellFormed c key s h.left;
        right = delete_object-IsWellFormed c key t h.right;
        same_get = λ k. rw (get-remove key k s) (rw (get-remove key k t) (rw (h.same_get k) refl));
      };
    };
  }
