-- ===== src/Storage/Backend.antt =====
-- storage/backend.rs: streams of bytes and the `StorageBackend` trait.
use replica_t.Common.{ℕ, ℤ, Text, Option, List}
use replica_t.Types.Error.{Result}
use replica_t.Types.Models.{ObjectMetadata}

abbrev pub Bytes : Type 0
Bytes = List ℕ

-- A stream that has been run to its end is the list of what it yields.
abbrev pub ObjectStream : Type 0
ObjectStream = List (Result Bytes)

-- An `async` call over the world `W`, which holds all that backends reach: it is awaited to its
-- end, and leaves the world as it finds it or changed.
abbrev pub Call : Type 0 → Type 0 → Type 0
Call W A = W → Result A × W

-- The trait: `Arc<dyn StorageBackend>` is such a record, and a clone of the `Arc` the same record.
pub record StorageBackend (W : Type 0) : Type 0 where
  pub head_bucket : Call W (Unit {0})
  pub list_objects : Option Text → ℤ → Call W (List ObjectMetadata)
  pub head_object : Text → Call W ObjectMetadata
  pub get_object : Text → Call W (ObjectStream × ObjectMetadata)
  pub put_object : Text → ObjectStream → Call W Text
  pub delete_object : Text → Call W (Unit {0})
