-- ===== src/Storage/S3.antt =====
-- storage/s3.rs: the backend over an S3 bucket. The client of the AWS SDK is a parameter.
pub mod Deletes
pub mod Errors
pub mod StreamBody
use replica_t.Common.{
  ℕ, ℤ, as_usize, Text, text, Option, none, some, List, [], ◌∷◌, ◌++◌, map, Bool,
}
use replica_t.Crypto.{Crypto}
use replica_t.Chrono.{Chrono}
use replica_t.Types.Error.{
  S3Error, Result, ok, err, Tried, returned, failed, map_err, map_result, no_such_key,
  no_such_bucket, internal_error,
}
use replica_t.Types.Models.{DateTime, ObjectMetadata}
use replica_t.Storage.Backend.{Bytes, ObjectStream, Call, StorageBackend}
use replica_t.Storage.InMemory.{calculate_etag}
use replica_t.Storage.S3.StreamBody.{forwarded}

-- What the SDK says of an object in answer to HEAD and GET.
pub record ObjectOutput : Type 0 where
  pub content_length : Option ℤ
  pub e_tag : Option Text
  -- seconds from the epoch
  pub last_modified : Option ℤ
  pub content_type : Option Text

-- And in a listing.
pub record ListedObject : Type 0 where
  pub key : Option Text
  pub size : Option ℤ
  pub e_tag : Option Text
  pub last_modified : Option ℤ

-- A call of the SDK, sent and awaited.
abbrev pub Sent : Type 0 → Type 0 → Type 0
Sent W A = W → Tried A × W

-- The client of the SDK: each call takes the bucket first.
pub record S3Client (W : Type 0) : Type 0 where
  pub head_bucket : Text → Sent W (Unit {0})
  pub list_objects_v2 : Text → Option Text → ℤ → Sent W (List ListedObject)
  pub head_object : Text → Text → Sent W ObjectOutput
  pub get_object : Text → Text → Sent W (List (Tried Bytes) × ObjectOutput)
  -- The ETag of the stored object
  pub put_object : Text → Text → List (Tried Bytes) → Sent W (Option Text)
  pub delete_object : Text → Text → Sent W (Unit {0})

pub record S3Backend (W : Type 0) : Type 0 where
  pub client : S3Client W
  pub bucket : Text
  pub name : Text

-- `unwrap_or(0) as u64`
unfoldable pub size_of : Option ℤ → ℕ
size_of none = 0
size_of (some n) = as_usize n

abbrev pub or_default : Option Text → Text → Text
or_default none d = d
or_default (some t) d = t

-- `match result`: what an error of the SDK becomes, and the rest of the call on success.
abbrev pub received :
    {A B W : Type 0} → (Text → Result B) → (A → Result B) → Tried A × W → Result B × W
received on_err on_ok (returned a, world) = (on_ok a, world)
received on_err on_ok (failed e, world) = (on_err e, world)

module _ (c : Crypto) (chrono : Chrono) (now : DateTime) where
  -- A missing time, and one out of chrono's range, is the present.
  unfoldable pub time_of : Option ℤ → DateTime
  time_of none = now
  time_of (some secs) = elim (chrono.from_timestamp secs) [ none ↦ now | some t ↦ t ]

  unfoldable pub extract_metadata : Text → ObjectOutput → ObjectMetadata
  unfolding size_of time_of
  extract_metadata key output = record {
    key = key;
    size = size_of output.content_length;
    etag = or_default output.e_tag [];
    last_modified = time_of output.last_modified;
    content_type = or_default output.content_type (text "binary/octet-stream");
  }

  -- The `filter_map` of a listing: an object without a key is left out.
  unfoldable pub listed : List ListedObject → List ObjectMetadata
  unfolding size_of time_of
  listed [] = []
  listed (obj ∷ rest) =
      let others = listed rest in
      elim obj.key [
        | none ↦ others
        | some key ↦
            record {
              key = key;
              size = size_of obj.size;
              etag = or_default obj.e_tag [];
              last_modified = time_of obj.last_modified;
              content_type = text "binary/octet-stream";
            }
            ∷ others
      ]

  module _ {W : Type 0} (backend : S3Backend W) where
    unfoldable pub head_bucket : Call W (Unit {0})
    head_bucket world =
        received (λ e. err no_such_bucket) ok (backend.client.head_bucket backend.bucket world)

    unfoldable pub list_objects : Option Text → ℤ → Call W (List ObjectMetadata)
    unfolding listed
    list_objects prefix max_keys world =
        received
          (λ e.
            err (
              internal_error (text "Failed to list objects in " ++ backend.name ++ text ": " ++ e)))
          (λ contents. ok (listed contents))
          (backend.client.list_objects_v2 backend.bucket prefix max_keys world)

    unfoldable pub head_object : Text → Call W ObjectMetadata
    unfolding extract_metadata
    head_object key world =
        received (λ e. err no_such_key) (λ output. ok (extract_metadata key output))
          (backend.client.head_object backend.bucket key world)

    -- A chunk that fails is an error of the stream.
    unfoldable pub get_object : Text → Call W (ObjectStream × ObjectMetadata)
    unfolding extract_metadata
    get_object key world =
        received (λ e. err no_such_key)
          (λ (body, output). ok (
            map (map_err (λ e. internal_error (text "Failed to read object: " ++ e))) body,
            extract_metadata key output,
          ))
          (backend.client.get_object backend.bucket key world)

    -- The ETag of no bytes stands in for one that the answer lacks.
    unfoldable pub put_object : Text → ObjectStream → Call W Text
    put_object key body world =
        received
          (λ e.
            err (
              internal_error (text "Failed to store object in " ++ backend.name ++ text ": " ++ e)))
          (λ e_tag. ok (or_default e_tag (calculate_etag c [])))
          (backend.client.put_object backend.bucket key (forwarded body) world)

    unfoldable pub delete_object : Text → Call W (Unit {0})
    delete_object key world =
        received (λ e. ok tt) (λ _. ok tt) (backend.client.delete_object backend.bucket key world)

    unfoldable pub s3_storage : StorageBackend W
    s3_storage = record {
      head_bucket = head_bucket;
      list_objects = list_objects;
      head_object = head_object;
      get_object = get_object;
      put_object = put_object;
      delete_object = delete_object;
    }

-- What `new` builds the client from.
pub record ClientConfig : Type 0 where
  pub region : Text
  -- The key and the secret, or what the environment of the process provides.
  pub static_credentials : Option (Text × Text)
  pub force_path_style : Bool
  pub endpoint_url : Option Text

-- Credentials are set only where both halves are given.
unfoldable pub both_given : Option Text → Option Text → Option (Text × Text)
both_given (some key_id) (some secret_key) = some (key_id, secret_key)
both_given key_id secret_key = none

-- `from_conf` is the making of a client.
unfoldable pub new :
    {W : Type 0}
    → (ClientConfig → S3Client W)
    → Text
    → Text
    → Text
    → Option Text
    → Bool
    → Option Text
    → Option Text
    → S3Backend W
unfolding both_given
new from_conf name bucket region endpoint force_path_style access_key_id secret_access_key =
    record {
      client = from_conf record {
        region = region;
        static_credentials = both_given access_key_id secret_access_key;
        force_path_style = force_path_style;
        endpoint_url = endpoint;
      };
      bucket = bucket;
      name = name;
    }
