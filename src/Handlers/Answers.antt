-- ===== src/Handlers/Answers.antt =====
-- What the handlers of handlers/ answer over the in-memory storage of in_memory.rs.
use mathlib.Core.List.{flatten}
use replica_t.Common.{
  Text, text, text_eq, none, some, List, [], ◌∷◌, map, ◌≡◌, refl, ap, if◌then◌else◌, Bool-cases,
  Option-cases, inl, inr,
}
use replica_t.Crypto.{Crypto}
use replica_t.Types.Error.{ok, err, map_result, no_such_key}
use replica_t.Types.Models.{DateTime}
use replica_t.Storage.Backend.{Bytes}
use replica_t.Storage.HashMap.{get}
use replica_t.Storage.InMemory
use replica_t.Storage.InMemory.{
  StoredObject, InMemoryStorage, in_memory_storage, calculate_etag, stored,
}
use replica_t.Storage.InMemory.Objects.{get_object-put_object}
use replica_t.Http.{bytes, Response, Env}
use replica_t.AppState.{AppState, CredentialsStore}
use replica_t.Handlers.{object_headers, to_chunk, from_chunk, get_object, head_object, put_object}

-- The application over one in-memory backend.
abbrev pub app_of : Crypto → DateTime → CredentialsStore → Text → AppState InMemoryStorage
app_of c now credentials bucket_name = record {
  storage = in_memory_storage c now;
  credentials = credentials;
  bucket_name = bucket_name;
}

abbrev without_body : Response → Response
without_body r = record r { body = [] }

reads_none :
    (key : Text) (s : InMemoryStorage)
    → get key s ≡ none
    → (InMemory.head_object key s ≡ (err no_such_key, s))
      × (InMemory.get_object key s ≡ (err no_such_key, s))
unfolding InMemory.head_object InMemory.get_object
reads_none key s e = rw e (refl, refl)

reads_some :
    (key : Text) (obj : StoredObject) (s : InMemoryStorage)
    → get key s ≡ some obj
    → (InMemory.head_object key s ≡ (ok obj.metadata, s))
      × (InMemory.get_object key s ≡ (ok (ok obj.data_bytes ∷ [], obj.metadata), s))
unfolding InMemory.head_object InMemory.get_object
reads_some key obj s e = rw e (refl, refl)

pub map-from_chunk : (chunks : List Bytes) → map from_chunk (map bytes chunks) ≡ map ok chunks
unfolding from_chunk
map-from_chunk [] = refl
map-from_chunk (b ∷ chunks) = ap (λ rest. ok b ∷ rest) (map-from_chunk chunks)

module _ (env : Env) (c : Crypto) (now : DateTime) (credentials : CredentialsStore)
    (bucket_name : Text) where
  -- HEAD of an object answers as GET does, without the body: the same status and headers, or the
  -- same error; and neither changes the storage.
  pub head_object-get_object :
      (key : Text) (s : InMemoryStorage)
      → head_object env (app_of c now credentials bucket_name) key s ≡ (
        map_result without_body (get_object env (app_of c now credentials bucket_name) key s).0,
        s,
      )
  unfolding head_object get_object in_memory_storage
  head_object-get_object key s = elim (Option-cases (get key s)) [
    | inl e ↦ rw ((reads_none key s e).0, (reads_none key s e).1) refl
    | inr (obj, e) ↦ rw ((reads_some key obj s e).0, (reads_some key obj s e).1) refl
  ]

  -- A PUT whose chunks all arrive answers 200 with the ETag of the joined body; afterwards a GET of
  -- the key answers 200 with the headers of the stored object and the joined body, and a GET of
  -- another key answers what it did before.
  pub get-put_answers :
      (key : Text) (chunks : List Bytes) (j : Text) (s : InMemoryStorage)
      → ((put_object env (app_of c now credentials bucket_name) key (map bytes chunks) s).0
          ≡ ok record {
            status = 200;
            headers = (text "etag", calculate_etag c (flatten chunks)) ∷ [];
            body = [];
          })
        × ((get_object env
              (app_of c now credentials bucket_name)
              j
              (put_object env (app_of c now credentials bucket_name) key (map bytes chunks) s).1).0
            ≡ (if text_eq key j
                then ok record {
                  status = 200;
                  headers = object_headers env (stored c now key (flatten chunks)).metadata;
                  body = bytes (flatten chunks) ∷ [];
                }
                else (get_object env (app_of c now credentials bucket_name) j s).0))
  unfolding put_object get_object in_memory_storage to_chunk
  get-put_answers key chunks j s =
      let (tag, found) = get_object-put_object c now key chunks j s in
      rw (map-from_chunk chunks) (
        rw tag refl,
        rw found (elim (Bool-cases (text_eq key j)) [ inl e ↦ rw e refl | inr e ↦ rw e refl ]),
      )
