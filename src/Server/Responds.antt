-- ===== src/Server/Responds.antt =====
-- Whether the requests that come to `create_app` of server.rs are answered.
pub mod InMemory
use replica_t.Common.{
  ℤ, Text, get_elem?, All-get_elem?, All, Option-cases, inl, inr, Option, List, [], ◌∷◌, map, ◌≡◌,
  ◌≢◌, refl, arith,
}
use replica_t.Types.Error.{
  Result, ok, err, panic, Tried, returned, failed, bind-ne-panic, map_err-ne-panic,
}
use replica_t.Storage.Backend.{StorageBackend, ObjectStream, Call}
use replica_t.Http.{BodyChunk, bytes, broken, unwinds, Request, Response, Env, into_response}
use replica_t.AppState.{AppState}
use replica_t.Auth.Signature.Checked.{IsLongDate}
use replica_t.Auth.Signature.Verified.{Mac, IsMac}
use replica_t.Auth.Middleware.{authenticated}
use replica_t.Handlers.{
  ListObjectsQuery, page_limit, from_chunk, delete_object, get_object, head_bucket, head_object,
  list_objects, not_found, put_object,
}
use replica_t.Server.{
  Axum, Handler, Route, respond, extract, with_auth, object_path, routes, Selected, no_route,
  no_method, handler, run_selected, run_routes, create_app,
}
use replica_t.Server.Guarded.{create_app_guarded}

abbrev pub IsCalmStream : ObjectStream → Type 0
IsCalmStream = All (λ chunk. chunk ≢ panic)

-- No call of the storage panics, but for a body that does.
pub record IsCalm {W : Type 0} (storage : StorageBackend W) : Type 0 where
  pub head_bucket_calm : (world : W) → (storage.head_bucket world).0 ≢ panic
  pub list_objects_calm :
      (prefix : Option Text) (n : ℤ) (world : W) → (storage.list_objects prefix n world).0 ≢ panic
  pub head_object_calm : (key : Text) (world : W) → (storage.head_object key world).0 ≢ panic
  pub get_object_calm : (key : Text) (world : W) → (storage.get_object key world).0 ≢ panic
  pub put_object_calm :
      (key : Text) (body : ObjectStream) (world : W)
      → IsCalmStream body
      → (storage.put_object key body world).0 ≢ panic
  pub delete_object_calm : (key : Text) (world : W) → (storage.delete_object key world).0 ≢ panic

-- The outcome of a call is a response.
abbrev pub IsAnswered : {W : Type 0} → Result Response × W → Type 0
IsAnswered outcome = (response : Response) × (outcome.0 ≡ ok response)

from_chunk-ne-panic :
    (body : List BodyChunk)
    → All (λ chunk. chunk ≢ unwinds) body
    → IsCalmStream (map from_chunk body)
unfolding from_chunk
from_chunk-ne-panic [] h = tt
from_chunk-ne-panic (bytes b ∷ body) h = (λ e. ground (arith, e), from_chunk-ne-panic body h.1)
from_chunk-ne-panic (broken m ∷ body) h = (λ e. ground (arith, e), from_chunk-ne-panic body h.1)
from_chunk-ne-panic (unwinds ∷ body) h = absurd (h.0 refl)

respond-IsAnswered :
    {W : Type 0} (env : Env) (outcome : Result Response × W)
    → outcome.0 ≢ panic
    → IsAnswered (respond env outcome)
unfolding respond
respond-IsAnswered env (ok response, world) h = (response, refl)
respond-IsAnswered env (err e, world) h = (into_response env e, refl)
respond-IsAnswered env (panic, world) h = absurd (h refl)

extract-IsAnswered {ℓ} :
    {A : Type ℓ} {W : Type 0} (axum : Axum) (r : Tried A) (k : A → Call W Response) (world : W)
    → ((a : A) → IsAnswered (k a world))
    → IsAnswered (extract axum r k world)
extract-IsAnswered axum (returned a) k world h = h a
extract-IsAnswered axum (failed e) k world h = (axum.rejection e, refl)

module _ {W : Type 0} (axum : Axum) (env : Env) (app_state : AppState W) (bucket_name : Text)
    (calm : IsCalm app_state.storage) where
  with_auth-IsAnswered :
      (request : Request) (k : Call W Response) (world : W)
      → IsAnswered (k world)
      → IsAnswered (with_auth axum request k world)
  with_auth-IsAnswered request k world h = elim (Option-cases request.auth_context) [
    | inl e ↦ rw (with_auth, e) (axum.missing_extension, refl)
    | inr (auth, e) ↦ rw (with_auth, e) h
  ]

  run_selected-IsAnswered :
      (place : Selected) (rs : List (Route W)) (request : Request) (world : W)
      → All (λ r. All (λ m. IsAnswered (m.1 request world)) r.1) rs
      → IsAnswered (run_selected axum env app_state bucket_name place rs request world)
  unfolding run_selected
  run_selected-IsAnswered no_route rs request world h = (not_found env, refl)
  run_selected-IsAnswered no_method rs request world h = (axum.method_not_allowed, refl)
  run_selected-IsAnswered (handler i j) rs request world h = elim (Option-cases (get_elem? rs i)) [
    | inl e ↦ rw (run_selected, e) (not_found env, refl)
    | inr (r, e) ↦ elim (Option-cases (get_elem? r.1 j)) [
      | inl f ↦ rw (run_selected, e, f) (not_found env, refl)
      | inr (m, f) ↦
          let on_route =
            All-get_elem? (λ q. All (λ n. IsAnswered (n.1 request world)) q.1) rs i r h e in
          rw (run_selected, e, f)
            (All-get_elem? (λ n. IsAnswered (n.1 request world)) r.1 j m on_route f)
    ]
  ]

  list_objects-ne-panic :
      (params : ListObjectsQuery) (world : W) → (list_objects env app_state params world).0 ≢ panic
  unfolding list_objects
  list_objects-ne-panic params world =
      bind-ne-panic _ _ (calm.list_objects_calm params.prefix (page_limit params.max_keys) world)
        λ objects.
          bind-ne-panic _ _ (map_err-ne-panic _ (env.list_to_xml _)) λ xml e. ground (arith, e)

  put_object-ne-panic :
      (key : Text) (body : List BodyChunk) (world : W)
      → All (λ chunk. chunk ≢ unwinds) body
      → (put_object env app_state key body world).0 ≢ panic
  unfolding put_object
  put_object-ne-panic key body world h =
      bind-ne-panic _ _
        (calm.put_object_calm key (map from_chunk body) world (from_chunk-ne-panic body h))
        λ tag e. ground (arith, e)

  get_object-ne-panic : (key : Text) (world : W) → (get_object env app_state key world).0 ≢ panic
  unfolding get_object
  get_object-ne-panic key world =
      bind-ne-panic _ _ (calm.get_object_calm key world) λ found e. ground (arith, e)

  head_object-ne-panic : (key : Text) (world : W) → (head_object env app_state key world).0 ≢ panic
  unfolding head_object
  head_object-ne-panic key world =
      bind-ne-panic _ _ (calm.head_object_calm key world) λ found e. ground (arith, e)

  delete_object-ne-panic :
      (key : Text) (world : W) → (delete_object env app_state key world).0 ≢ panic
  unfolding delete_object
  delete_object-ne-panic key world =
      bind-ne-panic _ _ (calm.delete_object_calm key world) λ u e. ground (arith, e)

  head_bucket-ne-panic : (world : W) → (head_bucket env app_state world).0 ≢ panic
  unfolding head_bucket
  head_bucket-ne-panic world =
      bind-ne-panic _ _ (calm.head_bucket_calm world) λ u e. ground (arith, e)

  -- A handler behind its extractors.
  on_object-IsAnswered :
      (request : Request) (pattern : Text) (k : Text → Call W Response) (world : W)
      → ((key : Text) → (k key world).0 ≢ panic)
      → IsAnswered (
          extract axum
            (axum.path_key pattern request.path)
            (λ key. with_auth axum request λ w. respond env (k key w))
            world)
  on_object-IsAnswered request pattern k world h =
      extract-IsAnswered axum (axum.path_key pattern request.path) _ world λ key.
        with_auth-IsAnswered request (λ w. respond env (k key w)) world
          (respond-IsAnswered env (k key world) (h key))

  on_list-IsAnswered :
      (request : Request) (world : W)
      → IsAnswered (
          extract axum
            (axum.list_query request.query)
            (λ params.
              with_auth axum request λ w. respond env (list_objects env app_state params w))
            world)
  on_list-IsAnswered request world =
      extract-IsAnswered axum (axum.list_query request.query) _ world λ params.
        with_auth-IsAnswered request (λ w. respond env (list_objects env app_state params w)) world
          (respond-IsAnswered env (list_objects env app_state params world)
            (list_objects-ne-panic params world))

  on_bucket-IsAnswered :
      (request : Request) (world : W)
      → IsAnswered (with_auth axum request (λ w. respond env (head_bucket env app_state w)) world)
  on_bucket-IsAnswered request world =
      with_auth-IsAnswered request (λ w. respond env (head_bucket env app_state w)) world
        (respond-IsAnswered env (head_bucket env app_state world) (head_bucket-ne-panic world))

  routes-IsAnswered :
      (request : Request) (world : W)
      → All (λ chunk. chunk ≢ unwinds) request.body
      → All
          (λ r. All (λ m. IsAnswered (m.1 request world)) r.1)
          (routes axum env app_state bucket_name)
  unfolding routes
  routes-IsAnswered request world h =
      let on_bucket = on_bucket-IsAnswered request world in
      let on_list = on_list-IsAnswered request world in
      let on_object = on_object-IsAnswered request (object_path axum env app_state bucket_name) in
      (
        (
          on_object (get_object env app_state) world (λ key. get_object-ne-panic key world),
          (
            on_object (λ key. put_object env app_state key request.body) world
                (λ key. put_object-ne-panic key request.body world h),
            (
              on_object (delete_object env app_state) world
                  (λ key. delete_object-ne-panic key world),
              (
                on_object (head_object env app_state) world (λ key. head_object-ne-panic key world),
                tt,
              ),
            ),
          ),
        ),
        ((on_list, (on_bucket, tt)), ((on_list, (on_bucket, tt)), tt)),
      )

  -- Over a storage whose calls do not panic, and where HMAC takes every key and a time of RFC 2822
  -- has at least eight bytes, every request whose body does not panic is answered, whatever its
  -- path, its method and its headers.
  pub create_app_responds :
      (mac : Mac)
      → IsMac env.crypto mac
      → IsLongDate env.chrono
      → (request : Request) (world : W) → All (λ chunk. chunk ≢ unwinds) request.body
      → (response : Response) × ((create_app axum env app_state bucket_name request world).0
          ≡ ok response)
  create_app_responds mac total dates request world h =
      elim (create_app_guarded axum env app_state bucket_name mac total dates request world) [
        | inl (info, passed, e) ↦ rw e (
            unfold authenticated run_routes in
            run_selected-IsAnswered _ (routes axum env app_state bucket_name)
              (authenticated request info) world
              (routes-IsAnswered (authenticated request info) world h))
        | inr (error, refusal, e) ↦ rw e (into_response env error, refl)
      ]
