-- ===== src/Auth/Signature/Verified.antt =====
-- Which signatures `verify_signature` of auth/signature.rs accepts.
use replica_t.Common.{
  ℕ, ◌≤◌, Text, text, text_eq, take, length, leb, true, some, List, [], ◌∷◌, join, ap, append_assoc,
  ◌++◌, ◌≡◌, refl, arith, if◌then◌else◌,
}
use replica_t.Crypto.{Crypto}
use replica_t.Chrono.{Chrono}
use replica_t.Types.Error.{ok, err, returned, signature_does_not_match}
use replica_t.Types.Models.{DateTime, Credentials}
use replica_t.Http.{Request}
use replica_t.Auth.Authorization.{AuthorizationInfo}
use replica_t.Auth.Canonical.{
  canonicalize_query_string, raw_query, build_canonical_headers, canonical_text,
  build_canonical_request,
}
use replica_t.Auth.Timestamp.{validate_timestamp}
use replica_t.Auth.Signature.{
  date_header, content_hash_header, build_string_to_sign, hmac_sha256, calculate_signature,
  compare_signatures, verify_signature,
}

-- A keyed digest, as a function; HMAC takes a key of any length, so `hmac` never fails.
abbrev pub Mac : Type 0
Mac = List ℕ → List ℕ → List ℕ

abbrev pub IsMac : Crypto → Mac → Type 0
IsMac c mac = (key data_bytes : List ℕ) → c.hmac key data_bytes ≡ returned (mac key data_bytes)

-- The signing key of Signature Version 4, for a day, a region and a service.
abbrev pub signing_key : Mac → Text → Text → Text → Text → List ℕ
signing_key mac secret day region service =
    mac (mac (mac (mac (text "AWS4" ++ secret) day) region) service) (text "aws4_request")

-- What a client signs a message with.
abbrev pub sign : Crypto → Mac → Text → Text → Text → Text → Text → Text
sign c mac secret day region service message =
    c.hex_encode (mac (signing_key mac secret day region service) message)

-- The canonical request of Signature Version 4: six lines.
abbrev pub canonical_lines : Request → List Text → Text → Text
canonical_lines request signed_headers content_hash =
    join
      (request.method
        ∷ request.path
        ∷ canonicalize_query_string (raw_query request)
        ∷ build_canonical_headers request signed_headers
        ∷ join signed_headers (text ";")
        ∷ content_hash
        ∷ [])
      (text "\n")

-- The message of Signature Version 4: the algorithm, the date, the scope and the digest of the
-- canonical request, each on a line.
abbrev pub message_of : Crypto → Request → List Text → Text → Text → Text → Text
message_of c request signed_headers content_hash amz_date scope =
    join
      (text "AWS4-HMAC-SHA256"
        ∷ amz_date
        ∷ scope
        ∷ c.hex_encode (c.sha256 (canonical_lines request signed_headers content_hash))
        ∷ [])
      (text "\n")

-- What the code signs is that message.
pub build_string_to_sign-message_of :
    (c : Crypto) (request : Request) (signed_headers : List Text) (content_hash : Text)
    (amz_date scope : Text)
    → build_string_to_sign c (canonical_text request signed_headers content_hash) amz_date scope
      ≡ message_of c request signed_headers content_hash amz_date scope
unfolding build_string_to_sign canonical_text join text
build_string_to_sign-message_of c request signed_headers content_hash amz_date scope =
    simp append_assoc refl

module _ (c : Crypto) (mac : Mac) (total : IsMac c mac) where
  hmac_sha256-mac :
      (key data_bytes : List ℕ) → hmac_sha256 c key data_bytes ≡ ok (mac key data_bytes)
  unfolding hmac_sha256
  hmac_sha256-mac key data_bytes = rw (hmac_sha256, total key data_bytes) refl

  calculate_signature-sign :
      (secret amz_date message : Text)
      → 8 ≤ length amz_date
      → calculate_signature c secret amz_date message
        ≡ ok (sign c mac secret (take 8 amz_date) (text "us-east-1") (text "s3") message)
  unfolding calculate_signature
  calculate_signature-sign secret amz_date message long =
      let enough : leb 8 (length amz_date) ≡ true = ground arith in
      let h = hmac_sha256-mac in rw (enough, h _ _, h _ _, h _ _, h _ _, h _ _) refl

  pub verify_signature-sign :
      (chrono : Chrono) (now : DateTime) (request : Request) (info : AuthorizationInfo)
      (credentials : Credentials) (amz_date content_hash : Text)
      → date_header request ≡ some amz_date
      → content_hash_header request ≡ some content_hash
      → 8 ≤ length amz_date
      → validate_timestamp chrono now amz_date ≡ ok tt
      → verify_signature c chrono now request info credentials ≡ (
          if text_eq
            (sign c mac credentials.secret_access_key
              (take 8 amz_date)
              (text "us-east-1")
              (text "s3")
              (message_of c request info.signed_headers content_hash amz_date
                info.credential_scope))
            info.signature
          then ok tt
          else err signature_does_not_match)
  unfolding verify_signature build_canonical_request compare_signatures
  verify_signature-sign chrono now request info credentials amz_date content_hash d h long v =
      rw (d, h, v, calculate_signature-sign credentials.secret_access_key amz_date _ long)
        (ap
          (λ message.
            if text_eq
              (sign c mac credentials.secret_access_key (take 8 amz_date) (text "us-east-1")
                (text "s3") message)
              info.signature
            then ok tt
            else err signature_does_not_match)
          (build_string_to_sign-message_of c request info.signed_headers content_hash amz_date
            info.credential_scope))
