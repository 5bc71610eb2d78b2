-- ===== src/Server/Replicated.antt =====
-- A PUT and a GET through `create_app` of server.rs, over a storage that replicates.
use mathlib.Core.List.{flatten}
use replica_t.Common.{ℕ, ◌<◌, Text, text, List, [], ◌∷◌, map, length, ◌≡◌, refl, ap, ◌∙◌}
use replica_t.Crypto.{Crypto}
use replica_t.Config.Modes.{multi_sync}
use replica_t.Types.Error.{ok}
use replica_t.Storage.Backend.{Bytes}
use replica_t.Storage.InMemory.{calculate_etag, stored}
use replica_t.Storage.Schedule.{IsSchedule}
use replica_t.Storage.MultiBackend.{MultiBackend}
use replica_t.Storage.MultiBackend.Jobs.{Job}
use replica_t.Storage.MultiBackend.Service.{Running, multi_storage}
use replica_t.Storage.Cluster.{Cluster, backends_from}
use replica_t.Storage.Cluster.MultiSync.{put_object_multi_sync}
use replica_t.Storage.Cluster.ReadBack.{get_object-put_object_multi_sync}
use replica_t.Http.{bytes, Request, Env}
use replica_t.AppState.{AppState, CredentialsStore}
use replica_t.Handlers.{object_headers, to_chunk, get_object, put_object}
use replica_t.Handlers.Answers.{map-from_chunk}
use replica_t.Server.{Axum, respond, create_app}
use replica_t.Server.RoundTrip.{IsObjectRequest, create_app-get, create_app-put, respond_ok}

-- The application over a replicating storage.
abbrev pub replicated_app :
    Text → MultiBackend Cluster → List ℕ → CredentialsStore → Text → AppState (Running Cluster)
replicated_app reason m order credentials bucket_name = record {
  storage = multi_storage reason m order;
  credentials = credentials;
  bucket_name = bucket_name;
}

module _ (axum : Axum) (env env' : Env) (c : Crypto) (reason : Text)
    (credentials : CredentialsStore) (bucket_name : Text) (m : MultiBackend Cluster) (n : ℕ)
    (order order' : List ℕ) where
  -- Through the whole server, over `n` in-memory backends in MULTI_SYNC: a PUT of an object that
  -- passes the guard, and whose body arrives, is answered 200 with the ETag of the joined body; a
  -- GET of the object that passes the guard and comes next is answered 200 with the headers of what
  -- was stored and the joined body, in every read mode, whatever the primary and whatever the
  -- schedules of the two calls.
  pub create_app_replicated :
      (put get : Request) (key : Text) (chunks : List Bytes) (w : Cluster) (jobs : List Job)
      → m.backends ≡ backends_from c 0 n
      → m.write_mode ≡ multi_sync
      → m.primary_index < n
      → length w.stores ≡ n
      → IsSchedule n order
      → IsSchedule n order'
      → IsObjectRequest axum env
          (replicated_app reason m order credentials bucket_name)
          bucket_name
          put
          1
          key
      → IsObjectRequest axum env'
          (replicated_app reason m order' credentials bucket_name)
          bucket_name
          get
          0
          key
      → put.body ≡ map bytes chunks
      → ((create_app axum env
            (replicated_app reason m order credentials bucket_name)
            bucket_name
            put
            (w, jobs)).0
          ≡ ok record {
            status = 200;
            headers = (text "etag", calculate_etag c (flatten chunks)) ∷ [];
            body = [];
          })
        × (i : ℕ) × (i < n)
        × ((create_app axum env'
              (replicated_app reason m order' credentials bucket_name)
              bucket_name
              get
              (create_app axum env
                (replicated_app reason m order credentials bucket_name)
                bucket_name
                put
                (w, jobs)).1).0
            ≡ ok record {
              status = 200;
              headers = object_headers env' (stored c (w.clock i) key (flatten chunks)).metadata;
              body = bytes (flatten chunks) ∷ [];
            })
  unfolding put_object get_object multi_storage to_chunk
  create_app_replicated put get key chunks w jobs backends mode primary l s s' p g body =
      let app = replicated_app reason m order credentials bucket_name in
      let app' = replicated_app reason m order' credentials bucket_name in
      let (w', sent, len, after) =
        put_object_multi_sync c reason key chunks m n order w backends mode primary l s in
      let (i, below, got) =
        get_object-put_object_multi_sync c reason key chunks m n order order' w backends mode
          primary l s s' in
      let run_put : create_app axum env app bucket_name put (w, jobs)
          ≡ respond env (put_object env app key (map bytes chunks) (w, jobs)) =
        rw (create_app-put axum env app bucket_name put key (w, jobs) p, body) refl in
      let tag : (put_object env app key (map bytes chunks) (w, jobs)).0
          ≡ ok record {
            status = 200;
            headers = (text "etag", calculate_etag c (flatten chunks)) ∷ [];
            body = [];
          } =
        rw (map-from_chunk chunks, sent) refl in
      let put_ends =
        run_put ∙ respond_ok env (put_object env app key (map bytes chunks) (w, jobs)) _ tag in
      let world = (put_object env app key (map bytes chunks) (w, jobs)).1 in
      let found : (get_object env' app' key world).0
          ≡ ok record {
            status = 200;
            headers = object_headers env' (stored c (w.clock i) key (flatten chunks)).metadata;
            body = bytes (flatten chunks) ∷ [];
          } =
        rw (map-from_chunk chunks, got) refl in
      let get_ends =
        create_app-get axum env' app' bucket_name get key world g
        ∙ respond_ok env' (get_object env' app' key world) _ found in
      (
        ap (λ x. x.0) put_ends,
        i,
        below,
        ap (λ x. (create_app axum env' app' bucket_name get x.1).0) put_ends
            ∙ ap (λ x. x.0) get_ends,
      )
