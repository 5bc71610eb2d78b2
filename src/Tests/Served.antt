-- ===== src/Tests/Served.antt =====
-- Requests that pass the guard, and what the server answers.
use mathlib.Core.List.{flatten}
use replica_t.Common.{
  pos, Text, text, text_eq, some, none, List, [], ◌∷◌, strip_prefix, ◌≡◌, ◌⊎◌, refl, arith,
}
use replica_t.Types.Error.{ok}
use replica_t.Http.{Request, Response, bytes}
use replica_t.AppState.{AppState, find_credentials}
use replica_t.Storage.InMemory.{InMemoryStorage, calculate_etag, stored}
use replica_t.Storage.HashMap.{get}
use replica_t.Auth.Authorization.{AuthorizationInfo}
use replica_t.Auth.Middleware.{authenticated}
use replica_t.Auth.Middleware.Client.{IsSigned-IsAuthenticated}
use replica_t.Auth.Middleware.Guards.{IsAuthenticated, IsRefused}
use replica_t.Handlers.{ListObjectsQuery, object_headers}
use replica_t.Handlers.Answers.{app_of}
use replica_t.Server.{create_app, routes, run_routes}
use replica_t.Server.Guarded.{create_app_guarded}
use replica_t.Server.Responds.{create_app_responds}
use replica_t.Server.Responds.InMemory.{in_memory_storage-IsCalm}
use replica_t.Server.RoundTrip.{IsObjectRequest, create_app_round_trip}
use replica_t.Tests.Data.{one_object, crypto, now}
use replica_t.Tests.Web.{
  mac, digests-IsMac, chrono-IsLongDate, env, parts, request_of, secret, store, axum,
}
use replica_t.Tests.Requests.{signature, info, parts-IsPrintable, request_of-IsSigned}

abbrev app : AppState InMemoryStorage
app = app_of crypto now store (text "b")

abbrev put_request : Request
put_request = request_of (text "PUT") signature

abbrev get_request : Request
get_request = request_of (text "GET") signature

known : find_credentials store (text "K") ≡ some secret
unfolding find_credentials get text text_eq
known = refl

create_app_guarded_example :
    ((i : AuthorizationInfo) × IsAuthenticated env app get_request i
      × (create_app axum env app (text "b") get_request one_object
          ≡ run_routes axum env app
              (text "b")
              (routes axum env app (text "b"))
              (authenticated get_request i)
              one_object))
    ⊎ IsRefused env one_object (create_app axum env app (text "b") get_request one_object)
create_app_guarded_example =
    create_app_guarded axum env app (text "b") mac digests-IsMac chrono-IsLongDate get_request
      one_object

passed : (method : Text) → IsAuthenticated env app (request_of method signature) info
passed method =
    IsSigned-IsAuthenticated env mac app (request_of method signature) (parts signature) secret
      digests-IsMac parts-IsPrintable known (request_of-IsSigned method)

create_app_responds_example :
    (response : Response) × ((create_app axum env app (text "b") put_request one_object).0
      ≡ ok response)
create_app_responds_example =
    create_app_responds axum env app (text "b") (in_memory_storage-IsCalm crypto now) mac
      digests-IsMac chrono-IsLongDate put_request one_object (ground arith)

get_request-IsObjectRequest : IsObjectRequest axum env app (text "b") get_request 0 (text "k")
unfolding text text_eq strip_prefix
get_request-IsObjectRequest = record {
  info = info;
  passed = passed (text "GET");
  selected = refl;
  key_is = refl;
}

put_request-IsObjectRequest : IsObjectRequest axum env app (text "b") put_request 1 (text "k")
unfolding text text_eq strip_prefix
put_request-IsObjectRequest = record {
  info = info;
  passed = passed (text "PUT");
  selected = refl;
  key_is = refl;
}

create_app_round_trip_example :
    ((create_app axum env app (text "b") put_request one_object).0
      ≡ ok record {
        status = 200;
        headers = (text "etag", calculate_etag crypto (1 ∷ 2 ∷ 3 ∷ [])) ∷ [];
        body = [];
      })
    × ((create_app axum env app
          (text "b")
          get_request
          (create_app axum env app (text "b") put_request one_object).1).0
        ≡ ok record {
          status = 200;
          headers = object_headers env (stored crypto now (text "k") (1 ∷ 2 ∷ 3 ∷ [])).metadata;
          body = bytes (1 ∷ 2 ∷ 3 ∷ []) ∷ [];
        })
unfolding flatten
create_app_round_trip_example =
    create_app_round_trip axum env env crypto now now store (text "b") put_request get_request
      (text "k") ((1 ∷ 2 ∷ []) ∷ (3 ∷ []) ∷ []) one_object put_request-IsObjectRequest
      get_request-IsObjectRequest refl

abbrev query : ListObjectsQuery
query = record { list_type = none; prefix = none; max_keys = some (pos 5000) }
