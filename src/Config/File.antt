-- ===== src/Config/File.antt =====
-- config.rs: the configuration file's contents, how its format is found, and its validation.
use replica_t.Common.{
  ℕ, leb, ◌+◌, Text, text, text_eq, Bool, true, false, ◌&&◌, ◌||◌, Option, none, some, List, [],
  ◌∷◌, ◌++◌, map, if◌then◌else◌,
}
use replica_t.Config.Modes.{ReadMode, WriteMode}

pub record S3BackendConfig : Type 0 where
  pub name : Text
  pub region : Text
  pub bucket : Text
  pub endpoint : Option Text
  pub force_path_style : Bool
  pub access_key_id : Option Text
  pub secret_access_key : Option Text

pub record MemoryBackendConfig : Type 0 where
  pub name : Text

pub data BackendConfig : Type 0 where
  s3 : S3BackendConfig → BackendConfig
  memory : MemoryBackendConfig → BackendConfig

unfoldable pub name : BackendConfig → Text
name (s3 c) = c.name
name (memory c) = c.name

pub record Config : Type 0 where
  pub virtual_bucket : Option Text
  pub read_mode : ReadMode
  pub write_mode : WriteMode
  pub primary_backend_name : Option Text
  pub use_latency_based_primary_backend : Option Bool
  pub backends : List BackendConfig

pub data ConfigFormat : Type 0 where
  json yaml : ConfigFormat

-- `Result<A, Box<dyn Error>>`: the error is known by its text.
pub data Loaded {ℓ} (A : Type ℓ) : Type ℓ where
  success : A → Loaded A
  failure : Text → Loaded A

infixl 5 ◌>>=◌ ◌>>◌
abbrev pub ◌>>=◌ {ℓ κ} : {A : Type ℓ} {B : Type κ} → Loaded A → (A → Loaded B) → Loaded B
success a >>= f = f a
failure e >>= f = failure e

abbrev pub ◌>>◌ {ℓ κ} : {A : Type ℓ} {B : Type κ} → Loaded A → Loaded B → Loaded B
m >> k = m >>= λ _. k

-- `seen_names`, as the list of what was inserted.
unfoldable pub seen : Text → List Text → Bool
seen n [] = false
seen n (m ∷ names) = text_eq m n || seen n names

unfoldable pub duplicate_name : Text → Text
duplicate_name n = text "Duplicate backend name: " ++ n

-- The loop that inserts each name into the set.
unfoldable pub check_unique : List Text → List BackendConfig → Loaded (Unit {0})
unfolding seen
check_unique names [] = success tt
check_unique names (b ∷ backends) =
    let rest = check_unique (name b ∷ names) backends in
    if seen (name b) names then failure (duplicate_name (name b)) else rest

unfoldable pub both_primaries : Text
both_primaries = text "Cannot specify both primaryBackendName and useLatencyBasedPrimaryBackend"

-- `== Some(true)`
unfoldable pub is_set : Option Bool → Bool
is_set (some true) = true
is_set other = false

abbrev pub is_some : Option Text → Bool
is_some none = false
is_some (some n) = true

unfoldable pub check_exclusive : Config → Loaded (Unit {0})
unfolding is_set
check_exclusive c =
    if is_some c.primary_backend_name && is_set c.use_latency_based_primary_backend
    then failure both_primaries
    else success tt

unfoldable pub any_named : Text → List BackendConfig → Bool
any_named n [] = false
any_named n (b ∷ backends) = text_eq (name b) n || any_named n backends

unfoldable pub not_in_backends : Text → Text
not_in_backends n = text "Primary backend name '" ++ (n ++ text "' not found in backends list")

unfoldable pub check_primary : Option Text → List BackendConfig → Loaded (Unit {0})
unfolding any_named
check_primary none backends = success tt
check_primary (some n) backends =
    if any_named n backends then success tt else failure (not_in_backends n)

unfoldable pub validate : Config → Loaded (Unit {0})
unfolding check_unique check_exclusive check_primary
validate c = do
  check_unique [] c.backends
  check_exclusive c
  check_primary c.primary_backend_name c.backends

unfoldable pub lower : ℕ → ℕ
lower b = if leb b'A' b && leb b b'Z' then b + 32 else b

unfoldable pub unsupported_extension : Text → Text
unsupported_extension ext =
    text "Unsupported config file extension: '." ++ (ext ++ text "'. Supported: .json, .yaml, .yml")

unfoldable pub no_extension : Text
no_extension = text "Config file must have an extension (.json, .yaml, or .yml)"

-- The extension of the path, in lower case, decides. (An extension that is not UTF-8 counts as
-- none; in one that is, this model lowers the ASCII letters.)
unfoldable pub format_of : Option Text → Loaded ConfigFormat
unfolding lower
format_of none = failure no_extension
format_of (some raw) =
    let ext = map lower raw in
    if text_eq ext (text "json")
    then success json
    else if text_eq ext (text "yaml") || text_eq ext (text "yml")
    then success yaml
    else failure (unsupported_extension ext)

-- The file system, and the parsers of the crates serde_json and serde_yml.
pub record Files : Type 0 where
  -- `path.extension().and_then(|ext| ext.to_str())`
  pub extension : Text → Option Text
  pub read_to_string : Text → Loaded Text
  pub json_from_str : Text → Loaded Config
  pub yaml_from_str : Text → Loaded Config

module _ (f : Files) where
  unfoldable pub detect_format : Text → Loaded ConfigFormat
  unfolding format_of
  detect_format path = format_of (f.extension path)

  unfoldable pub parse_content : Text → ConfigFormat → Loaded Config
  parse_content content json = f.json_from_str content
  parse_content content yaml = f.yaml_from_str content

  unfoldable pub from_file : Text → Loaded Config
  unfolding detect_format parse_content validate
  from_file path = do
    format ← detect_format path
    content ← f.read_to_string path
    config ← parse_content content format
    validate config
    success config
