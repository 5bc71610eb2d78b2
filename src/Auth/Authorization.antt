-- ===== src/Auth/Authorization.antt =====
-- auth/signature.rs: the Authorization header of AWS Signature Version 4 and its parser.
pub mod Accepted
pub mod Printed
pub mod Tokens
use replica_t.Common.{
  ℕ, Text, text, starts_with, strip_prefix, trim_start_matches, trim, split, join, length, ◌==◌,
  Option, none, some, List, [], ◌∷◌, if◌then◌else◌,
}
use replica_t.Types.Error.{Result, ok, err, panic, invalid_request, ◌>>=◌}

pub record AuthorizationInfo : Type 0 where
  pub access_key_id : Text
  pub credential_scope : Text
  pub signed_headers : List Text
  pub signature : Text

abbrev pub scheme : Text
scheme = text "AWS4-HMAC-SHA256 "

-- The three variables of the loop.
pub record Components : Type 0 where
  pub credential : Option Text
  pub signed_headers : Option Text
  pub signature : Option Text

abbrev pub no_components : Components
no_components = record { credential = none; signed_headers = none; signature = none }

-- One turn of the loop, on a part that is trimmed.
unfoldable pub read_part : Text → Components → Components
read_part part c = elim (strip_prefix part (text "Credential=")) [
  | some value ↦ record c { credential = some value }
  | none ↦ elim (strip_prefix part (text "SignedHeaders=")) [
    | some value ↦ record c { signed_headers = some value }
    | none ↦ elim (strip_prefix part (text "Signature=")) [
      | some value ↦ record c { signature = some value }
      | none ↦ c
    ]
  ]
]

unfoldable pub read_parts : List Text → Components → Components
unfolding read_part
read_parts [] c = c
read_parts (part ∷ parts) c = read_parts parts (read_part (trim part) c)

-- `ok_or_else` with an `InvalidRequest`.
abbrev pub required {ℓ} : {A : Type ℓ} → Option A → Text → Result A
required none msg = err (invalid_request msg)
required (some a) msg = ok a

-- The access key and the scope, of the five parts of a credential.
unfoldable pub read_credential : List Text → Result (Text × Text)
read_credential [] = panic
read_credential (key ∷ scope) =
    if length (key ∷ scope) == 5
    then ok (key, join scope (text "/"))
    else err (invalid_request (text "Invalid credential format"))

unfoldable pub read_components : Components → Result AuthorizationInfo
unfolding read_credential
read_components c =
    required c.credential (text "Missing Credential in authorization header") >>= λ credential.
    required c.signed_headers (text "Missing SignedHeaders in authorization header")
    >>= λ signed_headers.
        required c.signature (text "Missing Signature in authorization header") >>= λ signature.
        read_credential (split credential b'/') >>= λ (access_key_id, credential_scope). ok record {
          access_key_id = access_key_id;
          credential_scope = credential_scope;
          signed_headers = split signed_headers b';';
          signature = signature;
        }

unfoldable pub parse_authorization_header : Text → Result AuthorizationInfo
unfolding read_components read_parts
parse_authorization_header header =
    if starts_with header scheme
    then read_components (read_parts (split (trim_start_matches header scheme) b',') no_components)
    else err (invalid_request (text "Invalid authorization header format"))
