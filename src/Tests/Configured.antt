-- ===== src/Tests/Configured.antt =====
-- A configuration that validates.
use replica_t.Common.{◌≡◌, ◌↔◌, refl, false, none, some, [], ◌∷◌, text_eq}
use replica_t.Config.Modes.{best_effort, multi_sync}
use replica_t.Config.File.{
  Config, memory, validate, success, check_unique, check_exclusive, check_primary, seen, any_named,
  name, is_set,
}
use replica_t.Config.Valid.{NamesDiffer, PrimaryChosen, validate_iff}

abbrev pub config : Config
config = record {
  virtual_bucket = none;
  read_mode = best_effort;
  write_mode = multi_sync;
  primary_backend_name = some (98 ∷ []);
  use_latency_based_primary_backend = some false;
  backends = memory (record { name = 97 ∷ [] }) ∷ memory (record { name = 98 ∷ [] }) ∷ [];
}

pub config_is_valid : validate config ≡ success tt
unfolding validate check_unique check_exclusive check_primary seen any_named name is_set text_eq
config_is_valid = refl

validate-iff_example :
    (validate config ≡ success tt) ↔ (NamesDiffer config.backends × PrimaryChosen config)
validate-iff_example = validate_iff config
