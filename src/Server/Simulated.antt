-- ===== src/Server/Simulated.antt =====
-- `create_app` of server.rs over two storages that a client cannot tell apart.
pub mod Steps
use replica_t.Common.{
  ℕ, zero, suc, Text, text, get_elem?, Option-cases, ◌⊎◌, inl, inr, none, some, List, [], ◌∷◌, ◌++◌,
  map, ◌≡◌, refl, ap, ◌∙◌, subst, sym,
}
use replica_t.Types.Error.{
  Result, ok, err, panic, Tried, returned, failed, map_err, internal_error, ◌>>=◌,
}
use replica_t.Storage.Backend.{ObjectStream, StorageBackend, Call}
use replica_t.Storage.Simulation.{Alike, Simulates}
use replica_t.Http.{bytes, Request, Response, Env, into_response}
use replica_t.AppState.{AppState, CredentialsStore, find_credentials}
use replica_t.Auth.Authorization.{parse_authorization_header}
use replica_t.Auth.Signature.{header_text, verify_signature}
use replica_t.Auth.Middleware.{Next, or_respond, or_denied, authenticated, auth_middleware}
use replica_t.Handlers.{
  answer, ListObjectsQuery, page_limit, from_chunk, delete_object, get_object, head_bucket,
  head_object, list_objects, list_result, list_response, put_object,
}
use replica_t.Handlers.Answers.{map-from_chunk}
use replica_t.Server.{
  Axum, Handler, Route, shape, respond, extract, with_auth, object_path, routes, Selected, no_route,
  no_method, handler, run_selected, run_routes, create_app,
}
use replica_t.Server.Simulated.Steps.{
  app_with, Both, Both-get_elem?, Alike-pair, answer-Alike, auth_middleware-Alike, extract-Alike,
  with_auth-Alike,
}

module _ {W V : Type 0} (R : W → V → Type 0) (IsFine : ObjectStream → Type 0) (a : StorageBackend W)
    (b : StorageBackend V) (sim : Simulates R IsFine a b) (axum : Axum) (env : Env)
    (credentials : CredentialsStore) (bucket_name : Text) where
  abbrev left : AppState W
  left = app_with a credentials bucket_name

  abbrev right : AppState V
  right = app_with b credentials bucket_name

  module _ (request : Request) (fine : IsFine (map from_chunk request.body)) (w : W) (v : V)
      (h : R w v) where
    put_object-Alike :
        (key : Text)
        → Alike R
            (respond env (put_object env left key request.body w))
            (respond env (put_object env right key request.body v))
    unfolding put_object
    put_object-Alike key =
        answer-Alike R env _ _ _ (sim.put_object_alike key (map from_chunk request.body) w v fine h)

    on_object-Alike :
        (k : Text → Call W Response) (k' : Text → Call V Response)
        → ((key : Text) → Alike R (respond env (k key w)) (respond env (k' key v)))
        → Alike R
            (extract axum
              (axum.path_key (object_path axum env left bucket_name) request.path)
              (λ key. with_auth axum request λ world. respond env (k key world))
              w)
            (extract axum
              (axum.path_key (object_path axum env right bucket_name) request.path)
              (λ key. with_auth axum request λ world. respond env (k' key world))
              v)
    on_object-Alike k k' each =
        extract-Alike R env axum
          (axum.path_key (object_path axum env left bucket_name) request.path) _ _ w v h
          λ key.
            with_auth-Alike R env axum request (λ x. respond env (k key x))
              (λ x. respond env (k' key x)) w v h (each key)

    list_objects-Alike :
        (params : ListObjectsQuery)
        → Alike R
            (respond env (list_objects env left params w))
            (respond env (list_objects env right params v))
    unfolding list_objects
    list_objects-Alike params =
        answer-Alike R env _ _
          (λ objects.
            map_err (λ e. internal_error (text "Failed to serialize XML: " ++ e))
              (env.list_to_xml (list_result env bucket_name params objects))
            >>= λ xml. ok (list_response xml))
          (sim.list_objects_alike params.prefix (page_limit params.max_keys) w v h)

    on_list-Alike :
        Alike R
          (extract axum
            (axum.list_query request.query)
            (λ params.
              with_auth axum request λ world. respond env (list_objects env left params world))
            w)
          (extract axum
            (axum.list_query request.query)
            (λ params.
              with_auth axum request λ world. respond env (list_objects env right params world))
            v)
    on_list-Alike = extract-Alike R env axum (axum.list_query request.query) _ _ w v h λ params.
        with_auth-Alike R env axum request (λ x. respond env (list_objects env left params x))
          (λ x. respond env (list_objects env right params x)) w v h (list_objects-Alike params)

    on_bucket-Alike :
        Alike R
          (with_auth axum request (λ world. respond env (head_bucket env left world)) w)
          (with_auth axum request (λ world. respond env (head_bucket env right world)) v)
    unfolding head_bucket
    on_bucket-Alike =
        with_auth-Alike R env axum request (λ x. respond env (head_bucket env left x))
          (λ x. respond env (head_bucket env right x)) w v h
          (answer-Alike R env _ _ _ (sim.head_bucket_alike w v h))

    -- Handlers that end alike, and routes of such.
    abbrev MethodsAlike : Text × Handler W → Text × Handler V → Type 0
    MethodsAlike m m' = Alike R (m.1 request w) (m'.1 request v)

    abbrev RoutesAlike : Route W → Route V → Type 0
    RoutesAlike r r' = Both MethodsAlike r.1 r'.1

    routes-Alike :
        Both RoutesAlike (routes axum env left bucket_name) (routes axum env right bucket_name)
    unfolding routes get_object head_object delete_object
    routes-Alike = (
      (
        on_object-Alike _ _ (λ key. answer-Alike R env _ _ _ (sim.get_object_alike key w v h)),
        (
          on_object-Alike _ _ put_object-Alike,
          (
            on_object-Alike _ _
                (λ key. answer-Alike R env _ _ _ (sim.delete_object_alike key w v h)),
            (
              on_object-Alike _ _
                  (λ key. answer-Alike R env _ _ _ (sim.head_object_alike key w v h)),
              tt,
            ),
          ),
        ),
      ),
      ((on_list-Alike, (on_bucket-Alike, tt)), ((on_list-Alike, (on_bucket-Alike, tt)), tt)),
    )

    run_selected-Alike :
        (place : Selected) (rs : List (Route W)) (rs' : List (Route V))
        → Both RoutesAlike rs rs'
        → Alike R
            (run_selected axum env left bucket_name place rs request w)
            (run_selected axum env right bucket_name place rs' request v)
    unfolding run_selected
    run_selected-Alike no_route rs rs' both = Alike-pair R env refl h
    run_selected-Alike no_method rs rs' both = Alike-pair R env refl h
    run_selected-Alike (handler i j) rs rs' both = elim (Both-get_elem? RoutesAlike rs rs' i both) [
      | inl (e, e') ↦ rw (run_selected, e, e') (Alike-pair R env refl h)
      | inr (r, r', e, e', methods) ↦ elim (Both-get_elem? MethodsAlike r.1 r'.1 j methods) [
        | inl (f, f') ↦ rw (run_selected, e, e', f, f') (Alike-pair R env refl h)
        | inr (m, m', f, f', alike) ↦ rw (run_selected, e, e', f, f') alike
      ]
    ]

    run_routes-Alike :
        Alike R
          (run_routes axum env left bucket_name (routes axum env left bucket_name) request w)
          (run_routes axum env right bucket_name (routes axum env right bucket_name) request v)
    unfolding run_routes routes
    run_routes-Alike =
        run_selected-Alike
          (axum.select (map shape (routes axum env left bucket_name)) request.method request.path)
          (routes axum env left bucket_name) (routes axum env right bucket_name) routes-Alike

  -- Over two storages that a client cannot tell apart, from related worlds: every request whose body
  -- is fine is answered alike, and leaves related worlds.
  pub create_app-Alike :
      (request : Request) (w : W) (v : V)
      → IsFine (map from_chunk request.body)
      → R w v
      → Alike R
          (create_app axum env left bucket_name request w)
          (create_app axum env right bucket_name request v)
  unfolding create_app
  create_app-Alike request w v fine h =
      auth_middleware-Alike R env a b credentials bucket_name request _ _ w v h λ r same.
        run_routes-Alike r (subst (λ body. IsFine (map from_chunk body)) (sym same) fine) w v h
