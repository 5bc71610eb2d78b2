-- ===== src/Auth/Signature/Tamper.antt =====
-- What two requests have in common that carry one signature, by `verify_signature`.
use replica_t.Common.{ℕ, ◌≤◌, Text, text, take, length, some, List, ◌≡◌, ◌≢◌}
use replica_t.Crypto.{Crypto}
use replica_t.Chrono.{Chrono}
use replica_t.Types.Error.{ok}
use replica_t.Types.Models.{DateTime, Credentials}
use replica_t.Http.{Request}
use replica_t.Auth.Authorization.{AuthorizationInfo}
use replica_t.Auth.Canonical.{canonical_text}
use replica_t.Auth.Timestamp.{validate_timestamp}
use replica_t.Auth.Signature.{date_header, content_hash_header, build_string_to_sign}
use replica_t.Auth.Signature.Verified.{Mac, IsMac, signing_key}

-- Two texts with one digest.
abbrev pub Collision : (List ℕ → List ℕ) → Type 0
Collision f = (a : List ℕ) × (b : List ℕ) × (a ≢ b) × (f a ≡ f b)

-- A request with a date and a hash, as the checks before the signature find it.
pub record IsDated (chrono : Chrono) (now : DateTime) (request : Request)
    (amz_date content_hash : Text) : Type 0 where
  pub dated : date_header request ≡ some amz_date
  pub hashed : content_hash_header request ≡ some content_hash
  pub in_window : validate_timestamp chrono now amz_date ≡ ok tt

module _ (c : Crypto) (mac : Mac) (total : IsMac c mac)
    (hex_injective : (a b : List ℕ) → c.hex_encode a ≡ c.hex_encode b → a ≡ b) (chrono : Chrono)
    (info : AuthorizationInfo) (credentials : Credentials) (amz_date : Text)
    (long : 8 ≤ length amz_date) where
  abbrev key : List ℕ
  key =
      signing_key mac credentials.secret_access_key (take 8 amz_date) (text "us-east-1") (text "s3")

  abbrev string_to_sign : Request → Text → Text
  string_to_sign r g =
      build_string_to_sign c (canonical_text r info.signed_headers g) amz_date info.credential_scope
