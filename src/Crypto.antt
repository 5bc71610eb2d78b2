-- ===== src/Crypto.antt =====
-- The third-party digests that the server calls (crates sha2, hmac and hex), as one parameter.
use replica_t.Common.{ℕ, List, Text}
use replica_t.Types.Error.{Tried}

pub record Crypto : Type 0 where
  -- `Sha256::digest`
  pub sha256 : List ℕ → List ℕ
  -- `HmacSha256::new_from_slice` with a key, then `update` with a message and `finalize`
  pub hmac : List ℕ → List ℕ → Tried (List ℕ)
  -- `hex::encode`
  pub hex_encode : List ℕ → Text
