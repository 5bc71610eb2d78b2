-- ===== src/Auth/Middleware/Client.antt =====
-- Clients that sign as Signature Version 4 prescribes, before the guard of auth/middleware.rs.
use replica_t.Common.{◌≤◌, Text, text, text_eq_refl, take, length, join, some, ◌≡◌, refl}
use replica_t.Types.Error.{ok}
use replica_t.Types.Models.{Credentials}
use replica_t.Http.{Request, Env}
use replica_t.AppState.{AppState, find_credentials}
use replica_t.Auth.Authorization.Printed.{
  Parts, IsPrintable, info_of, print_authorization, parse_authorization_header-print_authorization,
}
use replica_t.Auth.Timestamp.{validate_timestamp}
use replica_t.Auth.Signature.{header_text, date_header, content_hash_header, verify_signature}
use replica_t.Auth.Signature.Verified.{Mac, IsMac, sign, message_of, verify_signature-sign}
use replica_t.Auth.Middleware.Guards.{IsAuthenticated}

-- What a client sends that signs the request with a secret.
pub record IsSigned (env : Env) (mac : Mac) (secret : Text) (request : Request) (p : Parts)
    : Type 0 where
  pub amz_date : Text
  pub content_hash : Text
  pub dated : date_header request ≡ some amz_date
  pub hashed : content_hash_header request ≡ some content_hash
  pub long_date : 8 ≤ length amz_date
  pub in_window : validate_timestamp env.chrono env.now amz_date ≡ ok tt
  pub printed : header_text (request.header (text "authorization")) ≡ some (print_authorization p)
  pub signed :
      p.signature
      ≡ sign env.crypto mac secret (take 8 amz_date) (text "us-east-1") (text "s3") (
          message_of env.crypto request p.signed_headers content_hash amz_date
            (join p.scope (text "/")))

-- The server finds the signature that it expects.
pub verify_signature-IsSigned :
    (env : Env) (mac : Mac) (request : Request) (p : Parts) (credentials : Credentials)
    → IsMac env.crypto mac
    → IsSigned env mac credentials.secret_access_key request p
    → verify_signature env.crypto env.chrono env.now request (info_of p) credentials ≡ ok tt
verify_signature-IsSigned env mac request p credentials total s =
    rw
      (
        verify_signature-sign env.crypto mac total env.chrono env.now request (info_of p)
            credentials s.amz_date s.content_hash s.dated s.hashed s.long_date s.in_window,
        ← s.signed,
        text_eq_refl p.signature,
      )
      refl

-- Such a request passes every check.
pub IsSigned-IsAuthenticated :
    {W : Type 0} (env : Env) (mac : Mac) (app_state : AppState W) (request : Request) (p : Parts)
    (credentials : Credentials)
    → IsMac env.crypto mac
    → IsPrintable p
    → find_credentials app_state.credentials p.access_key_id ≡ some credentials
    → IsSigned env mac credentials.secret_access_key request p
    → IsAuthenticated env app_state request (info_of p)
IsSigned-IsAuthenticated env mac app_state request p credentials total w known s = record {
  auth_header = print_authorization p;
  credentials = credentials;
  present = s.printed;
  parsed = parse_authorization_header-print_authorization p w;
  known = known;
  verified = verify_signature-IsSigned env mac request p credentials total s;
}
