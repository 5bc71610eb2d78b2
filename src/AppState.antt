-- ===== src/AppState.antt =====
-- app_state.rs and auth/credentials.rs: what every request is served from.
use replica_t.Common.{Text, Option}
use replica_t.Types.Models.{Credentials}
use replica_t.Storage.Backend.{StorageBackend}
use replica_t.Storage.HashMap.{HashMap, get}

pub record CredentialsStore : Type 0 where
  pub credentials : HashMap Credentials

abbrev pub new_store : HashMap Credentials → CredentialsStore
new_store credentials = record { credentials = credentials }

unfoldable pub find_credentials : CredentialsStore → Text → Option Credentials
find_credentials store access_key_id = get access_key_id store.credentials

pub record AppState (W : Type 0) : Type 0 where
  pub storage : StorageBackend W
  pub credentials : CredentialsStore
  pub bucket_name : Text
