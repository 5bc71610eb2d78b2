-- ===== src/Handlers.antt =====
-- handlers/: the seven handlers, each one call of the storage and the response to what it returns.
pub mod Answers
use replica_t.Common.{
  ℕ, suc, ℤ, pos, negsuc, min_int, as_i32, replace, ◌-◌, ◌^◌, ◌%◌, ltb, Text, text, starts_with,
  decimal, length, Option, none, some, false, List, [], ◌∷◌, ◌++◌, map, if◌then◌else◌,
}
use replica_t.Chrono.{Chrono}
use replica_t.Types.Error.{
  S3Error, display, Result, ok, err, panic, Tried, map_err, no_such_bucket, internal_error, ◌>>=◌,
}
use replica_t.Types.Models.{DateTime, ObjectMetadata, S3Object, ListBucketResult}
use replica_t.Storage.Backend.{ObjectStream, Call}
use replica_t.Http.{BodyChunk, bytes, broken, unwinds, Response, Env, into_response}
use replica_t.AppState.{AppState}

-- `call.await?`, then the rest of the handler, which does not touch the world.
abbrev pub answer {ℓ κ} :
    {A : Type ℓ} {B : Type κ} {W : Type 0} → Result A × W → (A → Result B) → Result B × W
answer (r, world) f = (r >>= f, world)

unfoldable pub last_modified_header : Env → DateTime → Text
last_modified_header env t = replace (env.chrono.to_rfc2822 t) (text "+0000") (text "GMT")

-- The headers of an object, in a response to GET and to HEAD.
unfoldable pub object_headers : Env → ObjectMetadata → List (Text × Text)
unfolding last_modified_header
object_headers env metadata =
    (text "content-type", metadata.content_type)
    ∷ (text "etag", metadata.etag)
    ∷ (text "last-modified", last_modified_header env metadata.last_modified)
    ∷ (text "content-length", decimal metadata.size)
    ∷ []

-- `map_err` on the stream of an object.
unfoldable pub to_chunk : Result (List ℕ) → BodyChunk
to_chunk (ok b) = bytes b
to_chunk (err e) = broken (display e)
to_chunk panic = unwinds

-- `map_err` on the stream of a request's body.
unfoldable pub from_chunk : BodyChunk → Result (List ℕ)
from_chunk (bytes b) = ok b
from_chunk (broken e) = err (internal_error (text "Failed to read body: " ++ e))
from_chunk unwinds = panic

pub record ListObjectsQuery : Type 0 where
  pub list_type : Option Text
  pub prefix : Option Text
  pub max_keys : Option ℤ

-- `unwrap_or(1000).min(1000)`
unfoldable pub page_limit : Option ℤ → ℤ
page_limit none = min_int (pos 1000) (pos 1000)
page_limit (some max_keys) = min_int max_keys (pos 1000)

unfoldable pub s3_object : Env → ObjectMetadata → S3Object
s3_object env obj = record {
  key = obj.key;
  last_modified = env.chrono.to_rfc3339 obj.last_modified;
  etag = obj.etag;
  size = obj.size;
  storage_class = text "STANDARD";
}

unfoldable pub list_result : Env → Text → ListObjectsQuery → List ObjectMetadata → ListBucketResult
unfolding page_limit s3_object
list_result env bucket params objects = record {
  name = bucket;
  prefix = params.prefix;
  key_count = as_i32 (length (map (s3_object env) objects));
  max_keys = page_limit params.max_keys;
  is_truncated = false;
  contents = map (s3_object env) objects;
}

unfoldable pub list_response : Text → Response
list_response xml = record {
  status = 200;
  headers = (text "content-type", text "application/xml") ∷ [];
  body = bytes (text "<?xml version=\"1.0\" encoding=\"UTF-8\"?>" ++ xml) ∷ [];
}

module _ {W : Type 0} (env : Env) (app_state : AppState W) where
  unfoldable pub delete_object : Text → Call W Response
  delete_object key world =
      answer (app_state.storage.delete_object key world)
        λ _. ok record { status = 204; headers = []; body = [] }

  unfoldable pub get_object : Text → Call W Response
  unfolding object_headers to_chunk
  get_object key world = answer (app_state.storage.get_object key world) λ (stream, metadata).
      ok record { status = 200; headers = object_headers env metadata; body = map to_chunk stream }

  unfoldable pub head_object : Text → Call W Response
  unfolding object_headers
  head_object key world =
      answer (app_state.storage.head_object key world)
        λ metadata. ok record { status = 200; headers = object_headers env metadata; body = [] }

  unfoldable pub head_bucket : Call W Response
  head_bucket world =
      answer (app_state.storage.head_bucket world)
        λ _. ok record { status = 200; headers = []; body = [] }

  unfoldable pub put_object : Text → List BodyChunk → Call W Response
  unfolding from_chunk
  put_object key body world =
      answer (app_state.storage.put_object key (map from_chunk body) world)
        λ etag. ok record { status = 200; headers = (text "etag", etag) ∷ []; body = [] }

  unfoldable pub list_objects : ListObjectsQuery → Call W Response
  unfolding page_limit list_result list_response
  list_objects params world =
      answer (app_state.storage.list_objects params.prefix (page_limit params.max_keys) world)
        λ objects.
          map_err (λ e. internal_error (text "Failed to serialize XML: " ++ e))
            (env.list_to_xml (list_result env app_state.bucket_name params objects))
          >>= λ xml. ok (list_response xml)

unfoldable pub not_found : Env → Response
not_found env = into_response env no_such_bucket
