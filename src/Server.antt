-- ===== src/Server.antt =====
-- server.rs: the routes of the bucket, and the guard in front of all of them.
pub mod Guarded
pub mod Responds
pub mod Replicated
pub mod RoundTrip
pub mod Serve
pub mod Unordered
pub mod Simulated
use replica_t.Common.{
  ℕ, Text, text, text_eq, Bool, Option, none, some, List, [], ◌∷◌, ◌++◌, map, get_elem?,
  if◌then◌else◌,
}
use replica_t.Types.Error.{Result, ok, err, panic, Tried, returned, failed}
use replica_t.Storage.Backend.{Call}
use replica_t.Http.{Request, Response, Env, into_response}
use replica_t.AppState.{AppState}
use replica_t.Handlers.{
  ListObjectsQuery, delete_object, get_object, head_bucket, head_object, list_objects, not_found,
  put_object,
}
use replica_t.Auth.Middleware.{auth_middleware}

-- The place of a handler: its route, and its method in the route. The path of a request may match
-- no route, and the method none of the route's.
pub data Selected : Type 0 where
  handler : ℕ → ℕ → Selected
  no_route : Selected
  no_method : Selected

-- What axum reads off a request, and answers by itself.
pub record Axum : Type 0 where
  -- Whether `Router::route` takes the patterns; it panics at one that is malformed.
  pub takes : List Text → Bool
  -- Of routes, each a pattern and its methods: the handler that `Router` selects for a method and
  -- a path.
  pub select : List (Text × List Text) → Text → Text → Selected
  -- `Path<String>`: what the pattern's parameter stands for.
  pub path_key : Text → Text → Tried Text
  -- `Query<ListObjectsQuery>`
  pub list_query : Option Text → Tried ListObjectsQuery
  -- The response to an extractor that failed, or to an extension that is missing.
  pub rejection : Text → Response
  pub missing_extension : Response
  pub method_not_allowed : Response

-- A handler with its extractors.
abbrev pub Handler : Type 0 → Type 0
Handler W = Request → Call W Response

-- A route: a pattern, and a handler for each method.
abbrev pub Route : Type 0 → Type 0
Route W = Text × List (Text × Handler W)

abbrev pub shape : {W : Type 0} → Route W → Text × List Text
shape r = (r.0, map (λ m. m.0) r.1)

-- `IntoResponse` for the result of a handler.
unfoldable pub respond : {W : Type 0} → Env → Result Response × W → Result Response × W
respond env (ok response, world) = (ok response, world)
respond env (err e, world) = (ok (into_response env e), world)
respond env (panic, world) = (panic, world)

-- An extractor that fails answers the request.
abbrev pub extract {ℓ} :
    {A : Type ℓ} {W : Type 0} → Axum → Tried A → (A → Call W Response) → Call W Response
extract axum (returned a) k world = k a world
extract axum (failed e) k world = (ok (axum.rejection e), world)

-- `Extension(_auth)`, the last extractor of each handler that does not read the body.
abbrev pub with_auth : {W : Type 0} → Axum → Request → Call W Response → Call W Response
with_auth axum request k world = elim request.auth_context [
  | none ↦ (ok axum.missing_extension, world)
  | some auth ↦ k world
]

module _ {W : Type 0} (axum : Axum) (env : Env) (app_state : AppState W) (bucket_name : Text) where
  abbrev pub object_path : Text
  object_path = text "/" ++ bucket_name ++ text "/{*key}"

  abbrev pub bucket_path : Text
  bucket_path = text "/" ++ bucket_name

  abbrev pub bucket_path_with_slash : Text
  bucket_path_with_slash = text "/" ++ bucket_name ++ text "/"

  -- A handler of an object: `Path(key)`, then `Extension(_auth)`.
  abbrev on_object : (Request → Text → Call W Response) → Handler W
  on_object k request =
      extract axum (axum.path_key object_path request.path)
        λ key. with_auth axum request λ world. respond env (k request key world)

  abbrev on_list : Handler W
  on_list request = extract axum (axum.list_query request.query) λ params.
      with_auth axum request λ world. respond env (list_objects env app_state params world)

  abbrev on_bucket : Handler W
  on_bucket request = with_auth axum request λ world. respond env (head_bucket env app_state world)

  unfoldable pub routes : List (Route W)
  routes =
      (
        object_path,
        (text "GET", on_object λ request key. get_object env app_state key)
            ∷ (text "PUT", on_object λ request key. put_object env app_state key request.body)
            ∷ (text "DELETE", on_object λ request key. delete_object env app_state key)
            ∷ (text "HEAD", on_object λ request key. head_object env app_state key)
            ∷ [],
      )
      ∷ (bucket_path, (text "GET", on_list) ∷ (text "HEAD", on_bucket) ∷ [])
      ∷ (bucket_path_with_slash, (text "GET", on_list) ∷ (text "HEAD", on_bucket) ∷ [])
      ∷ []

  -- The fallback of the router, which also stands where there is no handler at a place.
  unfoldable pub run_selected : Selected → List (Route W) → Handler W
  run_selected no_route rs request world = (ok (not_found env), world)
  run_selected no_method rs request world = (ok axum.method_not_allowed, world)
  run_selected (handler i j) rs request world = elim (get_elem? rs i) [
    | none ↦ (ok (not_found env), world)
    | some r ↦ elim (get_elem? r.1 j) [
      | none ↦ (ok (not_found env), world)
      | some m ↦ m.1 request world
    ]
  ]

  unfoldable pub run_routes : List (Route W) → Handler W
  unfolding run_selected
  run_routes rs request =
      run_selected (axum.select (map shape rs) request.method request.path) rs request

  unfoldable pub create_app : Handler W
  unfolding routes run_routes
  create_app request = auth_middleware env app_state request (run_routes routes)
