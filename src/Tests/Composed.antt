-- ===== src/Tests/Composed.antt =====
-- The server over two in-memory backends.
use mathlib.Core.List.{flatten}
use replica_t.Common.{
  ℕ, ◌<◌, Text, text, text_eq, strip_prefix, some, List, [], ◌∷◌, ◌≡◌, refl, arith,
}
use replica_t.Config.Modes.{best_effort}
use replica_t.Types.Error.{ok}
use replica_t.Storage.InMemory.{calculate_etag, stored}
use replica_t.Storage.HashMap.{get}
use replica_t.Storage.Cluster.{Cluster}
use replica_t.Storage.MultiBackend.Service.{Running}
use replica_t.Http.{bytes, Request}
use replica_t.AppState.{AppState, find_credentials}
use replica_t.Auth.Middleware.Client.{IsSigned-IsAuthenticated}
use replica_t.Auth.Middleware.Guards.{IsAuthenticated}
use replica_t.Handlers.{object_headers}
use replica_t.Server.{create_app}
use replica_t.Server.RoundTrip.{IsObjectRequest}
use replica_t.Server.Replicated.{replicated_app, create_app_replicated}
use replica_t.Server.Serve.{Arrival}
use replica_t.Tests.Data.{crypto, now, clock, cluster, replicated, order, order-IsSchedule}
use replica_t.Tests.Web.{mac, digests-IsMac, env, parts, request_of, secret, store, axum}
use replica_t.Tests.Requests.{signature, info, parts-IsPrintable, request_of-IsSigned}

abbrev app : AppState (Running Cluster)
app = replicated_app [] (replicated best_effort) order store (text "b")

abbrev put_request : Request
put_request = request_of (text "PUT") signature

abbrev get_request : Request
get_request = request_of (text "GET") signature

known : find_credentials store (text "K") ≡ some secret
unfolding find_credentials get text text_eq
known = refl

passed : (method : Text) → IsAuthenticated env app (request_of method signature) info
passed method =
    IsSigned-IsAuthenticated env mac app (request_of method signature) (parts signature) secret
      digests-IsMac parts-IsPrintable known (request_of-IsSigned method)

get_request-IsObjectRequest : IsObjectRequest axum env app (text "b") get_request 0 (text "k")
unfolding text text_eq strip_prefix
get_request-IsObjectRequest = record {
  info = info;
  passed = passed (text "GET");
  selected = refl;
  key_is = refl;
}

put_request-IsObjectRequest : IsObjectRequest axum env app (text "b") put_request 1 (text "k")
unfolding text text_eq strip_prefix
put_request-IsObjectRequest = record {
  info = info;
  passed = passed (text "PUT");
  selected = refl;
  key_is = refl;
}

create_app_replicated_example :
    ((create_app axum env app (text "b") put_request (cluster, [])).0
      ≡ ok record {
        status = 200;
        headers = (text "etag", calculate_etag crypto (1 ∷ 2 ∷ 3 ∷ [])) ∷ [];
        body = [];
      })
    × (i : ℕ) × (i < 2)
    × ((create_app axum env app
          (text "b")
          get_request
          (create_app axum env app (text "b") put_request (cluster, [])).1).0
        ≡ ok record {
          status = 200;
          headers =
              object_headers env (stored crypto (clock i) (text "k") (1 ∷ 2 ∷ 3 ∷ [])).metadata;
          body = bytes (1 ∷ 2 ∷ 3 ∷ []) ∷ [];
        })
unfolding flatten
create_app_replicated_example =
    create_app_replicated axum env env crypto [] store (text "b") (replicated best_effort) 2 order
      order put_request get_request (text "k") ((1 ∷ 2 ∷ []) ∷ (3 ∷ []) ∷ []) cluster [] refl refl
      (omega arith) refl order-IsSchedule order-IsSchedule put_request-IsObjectRequest
      get_request-IsObjectRequest refl

-- The two requests, with their schedules.
abbrev pub arrivals : List Arrival
arrivals =
    record { request = put_request; env = env; now = now; order = order }
    ∷ record { request = get_request; env = env; now = now; order = order }
    ∷ []
