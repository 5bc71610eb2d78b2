-- ===== src/Tests/Unordered.antt =====
-- The server over a map of two objects, and over the map in the other order.
use replica_t.Common.{text, List, ◌≡◌}
use replica_t.Types.Error.{Result}
use replica_t.Storage.InMemory.{InMemoryStorage}
use replica_t.Storage.InMemory.Observed.{SameObjects}
use replica_t.Http.{Response}
use replica_t.Server.Serve.{serve}
use replica_t.Server.Unordered.{memory_server, serve_order}
use replica_t.Tests.Data.{crypto}
use replica_t.Tests.Web.{axum, store}
use replica_t.Tests.Objects.{
  two_objects, two_objects', two_objects-IsWellFormed, two_objects'-IsWellFormed, same_objects,
}
use replica_t.Tests.Composed.{arrivals}

abbrev run : InMemoryStorage → List (Result Response) × InMemoryStorage
run = serve (memory_server axum crypto store (text "b")) arrivals

serve_order_example :
    ((run two_objects).0 ≡ (run two_objects').0)
    × SameObjects crypto (run two_objects).1 (run two_objects').1
serve_order_example =
    serve_order axum crypto store (text "b") arrivals two_objects two_objects'
      two_objects-IsWellFormed two_objects'-IsWellFormed same_objects
