-- ===== src/Server/Guarded.antt =====
-- What reaches the storage through `create_app` of server.rs.
use replica_t.Common.{Text, ◌≡◌, ◌⊎◌}
use replica_t.Http.{Request, Env}
use replica_t.AppState.{AppState}
use replica_t.Auth.Authorization.{AuthorizationInfo}
use replica_t.Auth.Signature.Checked.{IsLongDate}
use replica_t.Auth.Signature.Verified.{Mac, IsMac}
use replica_t.Auth.Middleware.{authenticated}
use replica_t.Auth.Middleware.Guards.{IsAuthenticated, IsRefused, auth_middleware_guards}
use replica_t.Server.{Axum, routes, run_routes, create_app}

module _ {W : Type 0} (axum : Axum) (env : Env) (app_state : AppState W) (bucket_name : Text)
    (mac : Mac) where
  -- Where HMAC takes every key and a time of RFC 2822 has at least eight bytes: whatever the path
  -- and the method, a request is routed only if it passes every check of the guard; any other is
  -- answered with an error of status 400 or 403, and the storage is as it was.
  pub create_app_guarded :
      IsMac env.crypto mac
      → IsLongDate env.chrono
      → (request : Request) (world : W)
      → ((info : AuthorizationInfo) × IsAuthenticated env app_state request info
          × (create_app axum env app_state bucket_name request world
              ≡ run_routes axum env app_state bucket_name
                  (routes axum env app_state bucket_name)
                  (authenticated request info)
                  world))
        ⊎ IsRefused env world (create_app axum env app_state bucket_name request world)
  unfolding create_app
  create_app_guarded total dates request world =
      auth_middleware_guards env app_state request
        (run_routes axum env app_state bucket_name (routes axum env app_state bucket_name)) world
        mac total dates
