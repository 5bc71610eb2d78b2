-- ===== src/Server/RoundTrip.antt =====
-- A PUT and a GET through `create_app` of server.rs, over the in-memory storage of in_memory.rs.
use mathlib.Core.List.{flatten}
use replica_t.Common.{
  ℕ, arith, ◌∙◌, Text, text, text_eq, text_eq_refl, List, [], ◌∷◌, map, ◌≡◌, refl, ap,
}
use replica_t.Crypto.{Crypto}
use replica_t.Types.Error.{Result, ok, err, panic, returned}
use replica_t.Types.Models.{DateTime}
use replica_t.Storage.Backend.{Bytes}
use replica_t.Storage.InMemory.{InMemoryStorage, in_memory_storage, calculate_etag, stored}
use replica_t.Http.{bytes, Request, Response, Env}
use replica_t.AppState.{AppState, CredentialsStore}
use replica_t.Auth.Authorization.{AuthorizationInfo}
use replica_t.Auth.Middleware.{authenticated}
use replica_t.Auth.Middleware.Guards.{IsAuthenticated, auth_middleware-authenticated}
use replica_t.Handlers.{object_headers, get_object, put_object}
use replica_t.Handlers.Answers.{app_of, get-put_answers}
use replica_t.Server.{Axum, respond, object_path, create_app, routes, shape, handler}

-- A request for an object of the bucket that passes the guard, and for which the router selects
-- the handler at a place of the object route.
pub record IsObjectRequest {W : Type 0} (axum : Axum) (env : Env) (app_state : AppState W)
    (bucket_name : Text) (request : Request) (place : ℕ) (key : Text) : Type 0 where
  pub info : AuthorizationInfo
  pub passed : IsAuthenticated env app_state request info
  pub selected :
      axum.select (map shape (routes axum env app_state bucket_name)) request.method request.path
      ≡ handler 0 place
  pub key_is :
      axum.path_key (object_path axum env app_state bucket_name) request.path ≡ returned key

module _ {W : Type 0} (axum : Axum) (env : Env) (app_state : AppState W) (bucket_name : Text)
    (request : Request) (key : Text) (world : W) where
  pub create_app-get :
      IsObjectRequest axum env app_state bucket_name request 0 key
      → create_app axum env app_state bucket_name request world
        ≡ respond env (get_object env app_state key world)
  unfolding create_app text text_eq authenticated
  create_app-get o =
      rw
        (
          auth_middleware-authenticated env app_state request _ world o.info o.passed,
          o.selected,
          o.key_is,
        )
        refl

  pub create_app-put :
      IsObjectRequest axum env app_state bucket_name request 1 key
      → create_app axum env app_state bucket_name request world
        ≡ respond env (put_object env app_state key request.body world)
  unfolding create_app text text_eq authenticated
  create_app-put o =
      rw
        (
          auth_middleware-authenticated env app_state request _ world o.info o.passed,
          o.selected,
          o.key_is,
        )
        refl

pub respond_ok :
    {W : Type 0} (env : Env) (outcome : Result Response × W) (response : Response)
    → outcome.0 ≡ ok response
    → respond env outcome ≡ (ok response, outcome.1)
unfolding respond
respond_ok env (ok r, world) response e = ap (λ x. (x, world)) e
respond_ok env (err x, world) response e = absurd (ground (arith, e))
respond_ok env (panic, world) response e = absurd (ground (arith, e))

-- Through the whole server: a PUT of an object that passes the guard, and whose body arrives, is
-- answered 200 with the ETag of the joined body; a GET of the object that passes the guard and
-- comes next is answered 200 with the headers of what was stored and the joined body. The two may
-- come from different clients and at different times.
pub create_app_round_trip :
    (axum : Axum) (env env' : Env) (c : Crypto) (now now' : DateTime)
    (credentials : CredentialsStore) (bucket_name : Text) (put get : Request) (key : Text)
    (chunks : List Bytes) (s : InMemoryStorage)
    → IsObjectRequest axum env (app_of c now credentials bucket_name) bucket_name put 1 key
    → IsObjectRequest axum env' (app_of c now' credentials bucket_name) bucket_name get 0 key
    → put.body ≡ map bytes chunks
    → ((create_app axum env (app_of c now credentials bucket_name) bucket_name put s).0
        ≡ ok record {
          status = 200;
          headers = (text "etag", calculate_etag c (flatten chunks)) ∷ [];
          body = [];
        })
      × ((create_app axum env'
            (app_of c now' credentials bucket_name)
            bucket_name
            get
            (create_app axum env (app_of c now credentials bucket_name) bucket_name put s).1).0
          ≡ ok record {
            status = 200;
            headers = object_headers env' (stored c now key (flatten chunks)).metadata;
            body = bytes (flatten chunks) ∷ [];
          })
unfolding put_object get_object in_memory_storage
create_app_round_trip axum env env' c now now' credentials bucket_name put get key chunks s p g
      body =
    let app = app_of c now credentials bucket_name in
    let app' = app_of c now' credentials bucket_name in
    let run_put : create_app axum env app bucket_name put s
        ≡ respond env (put_object env app key (map bytes chunks) s) =
      rw (create_app-put axum env app bucket_name put key s p, body) refl in
    let answers = get-put_answers env' c now credentials bucket_name key chunks key s in
    let put_ends =
      run_put ∙ respond_ok env (put_object env app key (map bytes chunks) s) _ answers.0 in
    let world = (put_object env app key (map bytes chunks) s).1 in
    let found : (get_object env' app' key world).0
        ≡ ok record {
          status = 200;
          headers = object_headers env' (stored c now key (flatten chunks)).metadata;
          body = bytes (flatten chunks) ∷ [];
        } =
      answers.1 ∙ rw (text_eq_refl key) refl in
    let get_ends =
      create_app-get axum env' app' bucket_name get key world g
      ∙ respond_ok env' (get_object env' app' key world) _ found in
    (
      ap (λ x. x.0) put_ends,
      ap (λ x. (create_app axum env' app' bucket_name get x.1).0) put_ends ∙ ap (λ x. x.0) get_ends,
    )
