-- ===== src/Auth/Signature.antt =====
-- auth/signature.rs: the signature that a request must carry, and `verify_signature`.
pub mod Checked
pub mod Tamper
pub mod Verified
use replica_t.Common.{
  ℕ, Text, text, text_eq, take, length, leb, Option, none, some, List, ◌++◌, if◌then◌else◌,
}
use replica_t.Crypto.{Crypto}
use replica_t.Chrono.{Chrono}
use replica_t.Types.Error.{
  Result, ok, err, panic, map_err, internal_error, signature_does_not_match, ◌>>=◌, ◌>>◌,
}
use replica_t.Types.Models.{DateTime, Credentials}
use replica_t.Http.{Request, HeaderValue}
use replica_t.Auth.Authorization.{AuthorizationInfo, required}
use replica_t.Auth.Canonical.{build_canonical_request}
use replica_t.Auth.Timestamp.{validate_timestamp}

-- `and_then(|v| v.to_str().ok())`
unfoldable pub header_text : Option HeaderValue → Option Text
header_text none = none
header_text (some value) = value.to_str

-- `x-amz-date`, and `date` only where that is missing.
unfoldable pub date_header : Request → Option Text
unfolding header_text
date_header request = header_text (elim (request.header (text "x-amz-date")) [
  | none ↦ request.header (text "date")
  | some value ↦ some value
])

unfoldable pub content_hash_header : Request → Option Text
unfolding header_text
content_hash_header request = header_text (request.header (text "x-amz-content-sha256"))

unfoldable pub compare_signatures : Text → Text → Result (Unit {0})
compare_signatures calculated given =
    if text_eq calculated given then ok tt else err signature_does_not_match

module _ (c : Crypto) where
  unfoldable pub build_string_to_sign : Text → Text → Text → Text
  build_string_to_sign canonical_request amz_date credential_scope =
      text "AWS4-HMAC-SHA256\n"
      ++ amz_date
      ++ text "\n"
      ++ credential_scope
      ++ text "\n"
      ++ c.hex_encode (c.sha256 canonical_request)

  unfoldable pub hmac_sha256 : List ℕ → List ℕ → Result (List ℕ)
  hmac_sha256 key data_bytes =
      map_err (λ e. internal_error (text "HMAC error: " ++ e)) (c.hmac key data_bytes)

  -- A slice past the end of the date unwinds.
  unfoldable pub calculate_signature : Text → Text → Text → Result Text
  unfolding hmac_sha256
  calculate_signature secret_key amz_date string_to_sign =
      if leb 8 (length amz_date)
      then (hmac_sha256 (text "AWS4" ++ secret_key) (take 8 amz_date) >>= λ k_date.
          hmac_sha256 k_date (text "us-east-1") >>= λ k_region.
          hmac_sha256 k_region (text "s3") >>= λ k_service.
          hmac_sha256 k_service (text "aws4_request") >>= λ k_signing.
          hmac_sha256 k_signing string_to_sign >>= λ signature. ok (c.hex_encode signature))
      else panic

  unfoldable pub verify_signature :
      Chrono → DateTime → Request → AuthorizationInfo → Credentials → Result (Unit {0})
  unfolding date_header content_hash_header
  verify_signature chrono now request auth_info credentials =
      required (date_header request) (text "Missing x-amz-date or date header") >>= λ amz_date.
      required (content_hash_header request) (text "Missing x-amz-content-sha256 header")
      >>= λ content_hash.
          validate_timestamp chrono now amz_date
          >> build_canonical_request request auth_info.signed_headers content_hash
          >>= λ canonical_request.
              calculate_signature credentials.secret_access_key amz_date
                (build_string_to_sign canonical_request amz_date auth_info.credential_scope)
              >>= λ calculated_signature.
                  compare_signatures calculated_signature auth_info.signature
