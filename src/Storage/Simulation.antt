-- ===== src/Storage/Simulation.antt =====
-- Two storages that a client cannot tell apart, as a relation between what they reach.
use replica_t.Common.{ℤ, Text, Option, ◌≡◌}
use replica_t.Types.Error.{Result}
use replica_t.Storage.Backend.{ObjectStream, StorageBackend}

module _ {W V : Type 0} (R : W → V → Type 0) where
  -- Equal results, in worlds that are related again.
  pub record Alike {A : Type 0} (x : Result A × W) (y : Result A × V) : Type 0 where
    pub same : x.0 ≡ y.0
    pub related : R x.1 y.1

  -- From related worlds, every call of the two ends alike, a PUT where its body is fine.
  pub record Simulates (IsFine : ObjectStream → Type 0) (a : StorageBackend W)
      (b : StorageBackend V) : Type 0 where
    pub head_bucket_alike : (w : W) (v : V) → R w v → Alike (a.head_bucket w) (b.head_bucket v)
    pub list_objects_alike :
        (prefix : Option Text) (max_keys : ℤ) (w : W) (v : V)
        → R w v
        → Alike (a.list_objects prefix max_keys w) (b.list_objects prefix max_keys v)
    pub head_object_alike :
        (key : Text) (w : W) (v : V) → R w v → Alike (a.head_object key w) (b.head_object key v)
    pub get_object_alike :
        (key : Text) (w : W) (v : V) → R w v → Alike (a.get_object key w) (b.get_object key v)
    pub put_object_alike :
        (key : Text) (body : ObjectStream) (w : W) (v : V)
        → IsFine body
        → R w v
        → Alike (a.put_object key body w) (b.put_object key body v)
    pub delete_object_alike :
        (key : Text) (w : W) (v : V) → R w v → Alike (a.delete_object key w) (b.delete_object key v)
