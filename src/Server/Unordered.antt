-- ===== src/Server/Unordered.antt =====
-- `create_app` of server.rs over an in-memory storage: what a client sees of the map it keeps.
use replica_t.Common.{pos, Text, List, [], ◌∷◌, All, ◌≡◌}
use replica_t.Crypto.{Crypto}
use replica_t.Types.Models.{DateTime}
use replica_t.Storage.Backend.{Call}
use replica_t.Storage.Simulation.{Alike}
use replica_t.Storage.HashMap.{get}
use replica_t.Storage.InMemory.{InMemoryStorage, in_memory_storage}
use replica_t.Storage.InMemory.Objects.{IsWellFormed}
use replica_t.Storage.InMemory.Observed.{SameObjects, in_memory_storage-order}
use replica_t.Http.{Response}
use replica_t.AppState.{CredentialsStore}
use replica_t.Server.{Axum, create_app}
use replica_t.Server.Serve.{Arrival, serve, serve-Alike}
use replica_t.Server.Simulated.{create_app-Alike}
use replica_t.Server.Simulated.Steps.{app_with}

module _ (axum : Axum) (c : Crypto) (credentials : CredentialsStore) (bucket_name : Text) where
  abbrev pub memory_server : Arrival → Call InMemoryStorage Response
  memory_server a =
      create_app axum a.env (app_with (in_memory_storage c a.now) credentials bucket_name)
        bucket_name a.request

  memory_server-Alike :
      (a : Arrival) (now : DateTime) (s t : InMemoryStorage)
      → Unit {0}
      → SameObjects c s t
      → Alike (SameObjects c) (memory_server a s) (memory_server a t)
  memory_server-Alike a now s t any h =
      create_app-Alike (SameObjects c) (λ body. Unit {0}) (in_memory_storage c a.now)
        (in_memory_storage c a.now) (in_memory_storage-order c a.now) axum a.env credentials
        bucket_name a.request s t tt h

  any_request : (arrivals : List Arrival) → All (λ a. Unit {0}) arrivals
  any_request [] = tt
  any_request (a ∷ arrivals) = (tt, any_request arrivals)

  -- The server over an in-memory storage does not show the order in which the storage iterates its
  -- map: from two well-formed maps that hold the same objects, any sequence of requests, with
  -- whatever bodies, is given the same responses, and leaves two well-formed maps that hold the same
  -- objects.
  pub serve_order :
      (arrivals : List Arrival) (s t : InMemoryStorage)
      → IsWellFormed c s
      → IsWellFormed c t
      → ((k : Text) → get k s ≡ get k t)
      → ((serve memory_server arrivals s).0 ≡ (serve memory_server arrivals t).0)
        × SameObjects c (serve memory_server arrivals s).1 (serve memory_server arrivals t).1
  serve_order arrivals s t left right same_get =
      let (same, related) =
        serve-Alike (λ now. SameObjects c) (λ a. Unit {0}) memory_server memory_server
          memory_server-Alike arrivals (pos 0) s t (any_request arrivals)
          record { left = left; right = right; same_get = same_get } in
      (same, related.1)
