-- ===== src/Startup/Main.antt =====
-- main.rs: `main`, from the command line to the server that listens.
use replica_t.Common.{ℕ, Text, text, decimal, Bool, Option, List, [], ◌∷◌, ◌++◌, if◌then◌else◌}
use replica_t.Config.File.{
  S3BackendConfig, MemoryBackendConfig, Config, Files, from_file, Loaded, success, failure,
}
use replica_t.Types.Error.{Result, ok, panic, ◌>>=◌}
use replica_t.Storage.InMemory.{InMemoryStorage}
use replica_t.Storage.Backend.{Call, StorageBackend}
use replica_t.Storage.MultiBackend.Service.{Running, reading, multi_storage}
use replica_t.Http.{Env}
use replica_t.Server.{Axum, Handler}
use replica_t.Startup.{Started, exits, single, replicated, start}
use replica_t.Startup.Serve.{Cli, app_of, bucket_name_of}

-- How `main` ends or goes on: `process::exit`, or a server at an address. Its application is served
-- an environment and a schedule with each request.
pub data Outcome (W : Type 0) : Type 0 where
  exit : ℕ → Outcome W
  serving : Text → (Env → List ℕ → Handler (Running W)) → Outcome W

-- `format!("{}:{}", cli.host, cli.port)`
unfoldable pub addr : Cli → Text
addr cli = cli.host ++ (text ":" ++ decimal cli.port)

-- A single backend is the storage itself: its calls leave no tasks.
unfoldable pub alone : {W : Type 0} → StorageBackend W → StorageBackend (Running W)
unfolding reading
alone b = record {
  head_bucket = reading b.head_bucket;
  list_objects = λ prefix max_keys. reading (b.list_objects prefix max_keys);
  head_object = λ key. reading (b.head_object key);
  get_object = λ key. reading (b.get_object key);
  put_object = λ key body. reading (b.put_object key body);
  delete_object = λ key. reading (b.delete_object key);
}

-- `bind` says whether `TcpListener::bind` succeeds, whose result is unwrapped; `reason` is the text
-- of a task that is lost.
module _ {W : Type 0} (files : Files) (s3_new : S3BackendConfig → Option (StorageBackend W))
    (hold : MemoryBackendConfig → InMemoryStorage → StorageBackend W) (elapsed : W → W → ℕ)
    (axum : Axum) (bind : Text → Bool) (reason : Text) where
  -- `create_app` panics at a pattern that `Router::route` does not take, before the listener is bound.
  unfoldable pub routed : Text → Result (Unit {0})
  routed bucket_name =
      if axum.takes (
        (text "/" ++ bucket_name ++ text "/{*key}")
        ∷ (text "/" ++ bucket_name)
        ∷ (text "/" ++ bucket_name ++ text "/")
        ∷ [])
      then ok tt
      else panic

  unfoldable pub listen : Cli → (Env → List ℕ → Handler (Running W)) → Result (Outcome W)
  unfolding addr
  listen cli app = if bind (addr cli) then ok (serving (addr cli) app) else panic

  -- What is left of `main` once the storage is there.
  unfoldable pub launch : Cli → Config → Started W → Result (Outcome W)
  unfolding routed listen app_of alone bucket_name_of
  launch cli config exits = ok (exit 1)
  launch cli config (single b) = routed (bucket_name_of config) >>= λ _.
      listen cli (λ env order. app_of axum env cli config (alone b))
  launch cli config (replicated m) = routed (bucket_name_of config) >>= λ _.
      listen cli (λ env order. app_of axum env cli config (multi_storage reason m order))

  -- `match Config::from_file(&cli.config)`
  unfoldable pub run_loaded : Cli → Loaded Config → Call W (Outcome W)
  unfolding launch start
  run_loaded cli (failure e) w = (ok (exit 1), w)
  run_loaded cli (success config) w =
      let (started, w') = start elapsed s3_new hold config w in (started >>= launch cli config, w')

  unfoldable pub main : Cli → Call W (Outcome W)
  unfolding run_loaded from_file
  main cli = run_loaded cli (from_file files cli.config)
