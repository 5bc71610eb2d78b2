-- ===== src/Tests/Web.antt =====
-- A signed request, and the libraries that serve it.
use replica_t.Common.{
  true, ◌+◌, ◌%◌, pos, leb, Text, text, text_eq, strip_prefix, length, Option, none, some, [], ◌∷◌,
  refl, arith, if◌then◌else◌,
}
use replica_t.Crypto.{Crypto}
use replica_t.Chrono.{Chrono}
use replica_t.Types.Error.{returned, failed}
use replica_t.Types.Models.{Credentials}
use replica_t.Http.{Request, HeaderValue, Response, Env, bytes}
use replica_t.AppState.{CredentialsStore}
use replica_t.Server.{Axum, handler, no_route}
use replica_t.Auth.Authorization.Printed.{Parts, print_authorization}
use replica_t.Auth.Signature.Checked.{IsLongDate}
use replica_t.Auth.Signature.Verified.{Mac, IsMac}

-- A letter that depends on the lengths stands in for the digest.
abbrev pub mac : Mac
mac key data_bytes = (97 + (length key + length data_bytes) % 26) ∷ []

abbrev pub digests : Crypto
digests = record {
  sha256 = λ b. length b ∷ [];
  hmac = λ k b. returned (mac k b);
  hex_encode = λ b. b;
}

pub digests-IsMac : IsMac digests mac
digests-IsMac key data_bytes = refl

-- Every text is the present, but for short ones.
abbrev pub chrono : Chrono
chrono = record {
  parse_from_str = λ s. returned (pos 7);
  parse_from_rfc2822 = λ s. if leb 8 (length s) then returned (pos 7) else failed [];
  signed_duration_since = λ a b. pos 60;
  from_timestamp = λ n. some n;
  to_rfc2822 = λ t. text "+0000";
  to_rfc3339 = λ t. [];
}

pub chrono-IsLongDate : IsLongDate chrono
chrono-IsLongDate s t h = ground (arith, h)

abbrev pub env : Env
env = record {
  crypto = digests;
  chrono = chrono;
  error_to_xml = λ e. returned e.code;
  list_to_xml = λ l. returned l.name;
  now = pos 7;
  request_id = [];
}

abbrev pub amz_date : Text
amz_date = text "20251118T195229Z"

abbrev pub content_hash : Text
content_hash = text "00"

abbrev pub parts : Text → Parts
parts signature = record {
  access_key_id = text "K";
  scope = text "20251118" ∷ text "us-east-1" ∷ text "s3" ∷ text "aws4_request" ∷ [];
  signed_headers = text "host" ∷ [];
  signature = signature;
}

abbrev value : Text → Option HeaderValue
value s = some record { to_str = some s }

-- A request for the object `k` of the bucket `b`.
abbrev pub request_of : Text → Text → Request
request_of method signature = record {
  method = method;
  path = text "/b/k";
  query = some (text "y=2&x");
  header = λ name.
      if text_eq name (text "authorization")
      then value (print_authorization (parts signature))
      else if text_eq name (text "x-amz-date")
      then value amz_date
      else if text_eq name (text "x-amz-content-sha256")
      then value content_hash
      else if text_eq name (text "host")
      then value (text " h ")
      else none;
  body = bytes (1 ∷ 2 ∷ []) ∷ bytes (3 ∷ []) ∷ [];
  auth_context = none;
}

abbrev pub secret : Credentials
secret = record { access_key_id = text "K"; secret_access_key = text "S" }

abbrev pub store : CredentialsStore
store = record { credentials = (text "K", secret) ∷ [] }

abbrev empty_response : Response
empty_response = record { status = 400; headers = []; body = [] }

abbrev pub axum : Axum
axum = record {
  takes = λ patterns. true;
  select = λ rs method path.
      if text_eq path (text "/b/k")
      then handler 0 (if text_eq method (text "GET") then 0 else 1)
      else no_route;
  path_key = λ pattern path. elim (strip_prefix path (text "/b/")) [
    | none ↦ failed []
    | some k ↦ returned k
  ];
  list_query = λ q. returned record { list_type = none; prefix = none; max_keys = none };
  rejection = λ e. empty_response;
  missing_extension = empty_response;
  method_not_allowed = empty_response;
}
