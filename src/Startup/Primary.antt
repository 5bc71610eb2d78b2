-- ===== src/Startup/Primary.antt =====
-- Which storage a configuration leads to, and which backend is its primary.
use replica_t.Common.{
  ℕ, zero, suc, ◌<◌, ◌≡◌, ◌≢◌, refl, ap, Text, text_eq, text_eq_iff, true, false, Bool, Option,
  none, some, List, [], ◌∷◌, length, get_elem?, get_elem?-lt, arith, Bool-cases, Option-cases, inl,
  inr,
}
use replica_t.Config.File.{
  S3BackendConfig, MemoryBackendConfig, BackendConfig, s3, memory, Config, is_set, validate,
  success,
}
use replica_t.Config.Valid.{validate_iff}
use replica_t.Types.Error.{ok}
use mathlib.Core.Option.{some-injective}
use replica_t.Storage.InMemory
use replica_t.Storage.InMemory.{InMemoryStorage}
use replica_t.Storage.Backend.{StorageBackend}
use replica_t.Storage.MultiBackend.{MultiBackend, new}
use replica_t.Storage.MultiBackend.Latency.{determine_primary_by_latency}
use replica_t.Storage.MultiBackend.Latency.Least.{Calm, determine_primary_by_latency_least}
use replica_t.Startup.{
  Started, exits, single, replicated, position, named_index, init_backends, primary_index,
  create_storage, start,
}

position-eq-some :
    (n : Text) (names : List Text) (i : ℕ) → position n names ≡ some i → get_elem? names i ≡ some n
unfolding position
position-eq-some n [] i h = ground (arith, h)
position-eq-some n (m ∷ names) i h = elim (Bool-cases (text_eq m n)) [
  | inl e ↦ ground (arith, h, e, text_eq_iff m n)
  | inr e ↦ elim (Option-cases (position n names)) [
    | inl f ↦ ground (arith, h, e, f)
    | inr (j, f) ↦ ground (arith, h, e, f, position-eq-some n names j f)
  ]
]

position-found :
    (n : Text) (names : List Text) (i : ℕ)
    → get_elem? names i ≡ some n
    → (j : ℕ) × (position n names ≡ some j)
unfolding position
position-found n [] i h = ground (arith, h)
position-found n (m ∷ names) zero h = (0, ground (arith, h, text_eq_iff m n))
position-found n (m ∷ names) (suc i) h = elim (Bool-cases (text_eq m n)) [
  | inl e ↦ (0, rw e refl)
  | inr e ↦ let (j, f) = position-found n names i h in (suc j, ground (arith, e, f))
]

-- The index is in bounds of the names.
pub named_index_lt :
    (o : Option Text) (names : List Text) → 0 < length names → named_index o names < length names
unfolding named_index
named_index_lt none names h = h
named_index_lt (some n) names h = elim (Option-cases (position n names)) [
  | inl e ↦ rw (e, named_index) h
  | inr (i, e) ↦ rw (e, named_index) (get_elem?-lt names i n (position-eq-some n names i e))
]

named_index-found :
    (n : Text) (names : List Text) (i : ℕ)
    → get_elem? names i ≡ some n
    → get_elem? names (named_index (some n) names) ≡ some n
unfolding named_index
named_index-found n names i h =
    let (j, e) = position-found n names i h in rw (e, named_index) (position-eq-some n names j e)

module _ {W : Type 0} (s3_new : S3BackendConfig → Option (StorageBackend W))
    (hold : MemoryBackendConfig → InMemoryStorage → StorageBackend W) where
  -- Every backend that initialises has its name beside it.
  init_backends-length :
      (configs : List BackendConfig)
      → length (init_backends s3_new hold configs).1 ≡ length (init_backends s3_new hold configs).0
  unfolding init_backends
  init_backends-length [] = refl
  init_backends-length (s3 c ∷ configs) = elim (Option-cases (s3_new c)) [
    | inl e ↦ rw (e, init_backends) (init_backends-length configs)
    | inr (b, e) ↦ rw (e, init_backends) (ap suc (init_backends-length configs))
  ]
  init_backends-length (memory c ∷ configs) = ap suc (init_backends-length configs)

  -- A configuration with a name, and the backend that it initialises to.
  abbrev pub IsBuiltFrom : Text → StorageBackend W → BackendConfig → Type 0
  IsBuiltFrom n b (s3 c) = (c.name ≡ n) × (s3_new c ≡ some b)
  IsBuiltFrom n b (memory c) = (c.name ≡ n) × (hold c InMemory.new ≡ b)

  -- A backend stands where its name does.
  init_backends-IsBuiltFrom :
      (configs : List BackendConfig) (i : ℕ) (n : Text)
      → get_elem? (init_backends s3_new hold configs).1 i ≡ some n
      → (b : StorageBackend W) × (k : ℕ) × (config : BackendConfig) × (get_elem?
            (init_backends s3_new hold configs).0
            i
          ≡ some b)
        × (get_elem? configs k ≡ some config)
        × IsBuiltFrom n b config
  unfolding init_backends
  init_backends-IsBuiltFrom [] i n h = absurd (ground (arith, h))
  init_backends-IsBuiltFrom (s3 c ∷ configs) zero n h = elim (Option-cases (s3_new c)) [
    | inl e ↦
        let (b, k, config, at_i, at_k, built) =
          init_backends-IsBuiltFrom configs zero n (ground (arith, h, e)) in
        (b, suc k, config, rw (e, init_backends) at_i, at_k, built)
    | inr (b, e) ↦
        let named : some c.name ≡ some n = ground (arith, h, e) in
        (b, 0, s3 c, rw (e, init_backends) refl, refl, (some-injective _ _ named, e))
  ]
  init_backends-IsBuiltFrom (s3 c ∷ configs) (suc i) n h = elim (Option-cases (s3_new c)) [
    | inl e ↦
        let (b, k, config, at_i, at_k, built) =
          init_backends-IsBuiltFrom configs (suc i) n (ground (arith, h, e)) in
        (b, suc k, config, rw (e, init_backends) at_i, at_k, built)
    | inr (b', e) ↦
        let (b, k, config, at_i, at_k, built) =
          init_backends-IsBuiltFrom configs i n (ground (arith, h, e)) in
        (b, suc k, config, rw (e, init_backends) at_i, at_k, built)
  ]
  init_backends-IsBuiltFrom (memory c ∷ configs) zero n h =
      (hold c InMemory.new, 0, memory c, refl, refl, (some-injective _ _ h, refl))
  init_backends-IsBuiltFrom (memory c ∷ configs) (suc i) n h =
      let (b, k, config, at_i, at_k, built) = init_backends-IsBuiltFrom configs i n h in
      (b, suc k, config, at_i, at_k, built)

module _ {W : Type 0} where
  -- What the server may be started with, over the backends that have initialised.
  pub data IsReady (config : Config) (backends : List (StorageBackend W)) : Started W → Type 0 where
    no_backend : backends ≡ [] → IsReady config backends exits
    one_backend : (b : StorageBackend W) → backends ≡ b ∷ [] → IsReady config backends (single b)
    several :
        (m : MultiBackend W)
        → m.backends ≡ backends
        → 1 < length backends
        → m.primary_index < length backends
        → m.read_mode ≡ config.read_mode
        → m.write_mode ≡ config.write_mode
        → IsReady config backends (replicated m)

is_set-false : (o : Option Bool) → o ≢ some true → is_set o ≡ false
unfolding is_set
is_set-false none h = refl
is_set-false (some true) h = absurd (h refl)
is_set-false (some false) h = refl

module _ {W : Type 0} (elapsed : W → W → ℕ) where
  primary_index_lt :
      (config : Config) (backends : List (StorageBackend W)) (names : List Text) (w : W)
      → 0 < length backends
      → length names ≡ length backends
      → Calm backends
      → (i : ℕ) × (w' : W) × (primary_index elapsed config backends names w ≡ (ok i, w'))
        × (i < length backends)
  unfolding primary_index
  primary_index_lt config backends names w some_there same calm =
      elim (Bool-cases (is_set config.use_latency_based_primary_backend)) [
        | inl e ↦
            let (ls, i, x, m, d, n, b, medians, sizes, each, f) =
              determine_primary_by_latency_least elapsed backends names w some_there
                (omega (arith, same)) calm in
            let w' = (determine_primary_by_latency elapsed backends names w).1 in
            (i, w', rw (e, primary_index) (ap (λ r. (r, w')) d), b)
        | inr e ↦ (
          named_index config.primary_backend_name names,
          w,
          rw (e, primary_index) refl,
          omega
              (arith, same, named_index_lt config.primary_backend_name names (omega (arith, same))),
        )
      ]

  create_storage-IsReady :
      (config : Config) (backends : List (StorageBackend W)) (names : List Text) (w : W)
      → length names ≡ length backends
      → Calm backends
      → (s : Started W) × ((create_storage elapsed config backends names w).0 ≡ ok s)
        × IsReady config backends s
  unfolding create_storage
  create_storage-IsReady config [] names w same calm = (exits, refl, no_backend refl)
  create_storage-IsReady config (b ∷ []) names w same calm = (single b, refl, one_backend b refl)
  create_storage-IsReady config (b ∷ b' ∷ bs) names w same calm =
      let (i, w', e, h) = primary_index_lt config (b ∷ b' ∷ bs) names w (omega arith) same calm in
      let m = new (b ∷ b' ∷ bs) i config.read_mode config.write_mode in
      (replicated m, rw e, unfold new in several m refl (omega arith) h refl refl)

  create_storage_named :
      (config : Config) (n : Text) (backends : List (StorageBackend W)) (names : List Text) (i : ℕ)
      (w : W)
      → validate config ≡ success tt
      → config.primary_backend_name ≡ some n
      → 1 < length backends
      → get_elem? names i ≡ some n
      → (m : MultiBackend W) × (create_storage elapsed config backends names w
          ≡ (ok (replicated m), w))
        × (m.backends ≡ backends)
        × (get_elem? names m.primary_index ≡ some n)
  unfolding create_storage primary_index is_set
  create_storage_named config n [] names i w valid named h at_i = absurd (omega arith)
  create_storage_named config n (b ∷ []) names i w valid named h at_i = absurd (omega arith)
  create_storage_named config n (b ∷ b' ∷ bs) names i w valid named h at_i =
      let not_latency = (((validate_iff config).0 valid).1 n named).0 in
      let not_set : is_set config.use_latency_based_primary_backend ≡ false =
        is_set-false config.use_latency_based_primary_backend not_latency in
      (
        new (b ∷ b' ∷ bs) (named_index (some n) names) config.read_mode config.write_mode,
        rw (not_set, primary_index) (rw named),
        unfold new in refl,
        unfold new in named_index-found n names i at_i,
      )

module _ {W : Type 0} (s3_new : S3BackendConfig → Option (StorageBackend W))
    (hold : MemoryBackendConfig → InMemoryStorage → StorageBackend W) (elapsed : W → W → ℕ) where
  -- Where no HEAD bucket panics, start-up ends. Without a backend that initialises, `main` exits; a
  -- single one serves alone; over more, the server replicates, in the modes of the configuration,
  -- with a primary index that is in bounds.
  pub start-IsReady :
      (config : Config) (w : W)
      → Calm (init_backends s3_new hold config.backends).0
      → (s : Started W) × ((start elapsed s3_new hold config w).0 ≡ ok s)
        × IsReady config (init_backends s3_new hold config.backends).0 s
  unfolding start
  start-IsReady config w calm =
      create_storage-IsReady elapsed config _ _ w (init_backends-length s3_new hold config.backends)
        calm

  -- A validated configuration that names a primary, where that backend and another have
  -- initialised: the server replicates over the backends that have, and its primary is what a
  -- configuration of that name initialised to. Nothing is measured.
  pub start_named :
      (config : Config) (n : Text) (i : ℕ) (w : W)
      → validate config ≡ success tt
      → config.primary_backend_name ≡ some n
      → 1 < length (init_backends s3_new hold config.backends).0
      → get_elem? (init_backends s3_new hold config.backends).1 i ≡ some n
      → (m : MultiBackend W) × (start elapsed s3_new hold config w ≡ (ok (replicated m), w))
        × (m.backends ≡ (init_backends s3_new hold config.backends).0)
        × (b : StorageBackend W) × (k : ℕ) × (backend_config : BackendConfig) × (get_elem?
              m.backends m.primary_index
            ≡ some b)
        × (get_elem? config.backends k ≡ some backend_config)
        × IsBuiltFrom s3_new hold n b backend_config
  unfolding start
  start_named config n i w valid named more at_i =
      let (m, started, backends, name) =
        create_storage_named elapsed config n (init_backends s3_new hold config.backends).0
          (init_backends s3_new hold config.backends).1 i w valid named more at_i in
      let (b, k, backend_config, at_p, at_k, built) =
        init_backends-IsBuiltFrom s3_new hold config.backends m.primary_index n name in
      (m, started, backends, b, k, backend_config, rw backends at_p, at_k, built)
