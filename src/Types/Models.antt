-- ===== src/Types/Models.antt =====
-- types/models.rs: metadata of objects, the list response, credentials.
use replica_t.Common.{ℕ, ℤ, Text, Option, Bool, List}

-- `chrono::DateTime<Utc>`: seconds from the epoch, as an opaque stamp.
abbrev pub DateTime : Type 0
DateTime = ℤ

pub record ObjectMetadata : Type 0 where
  pub key : Text
  pub size : ℕ
  pub etag : Text
  pub last_modified : DateTime
  pub content_type : Text

pub record S3Object : Type 0 where
  pub key : Text
  pub last_modified : Text
  pub etag : Text
  pub size : ℕ
  pub storage_class : Text

pub record ListBucketResult : Type 0 where
  pub name : Text
  pub prefix : Option Text
  pub key_count : ℤ
  pub max_keys : ℤ
  pub is_truncated : Bool
  pub contents : List S3Object

pub record Credentials : Type 0 where
  pub access_key_id : Text
  pub secret_access_key : Text

pub record AuthContext : Type 0 where
  pub access_key_id : Text
