-- ===== src/Http.antt =====
-- What the server takes from the HTTP libraries, axum and http, and hands to them; and the response
-- of types/error.rs to an error.
use replica_t.Common.{ℕ, Text, text, Option, List, [], ◌∷◌}
use replica_t.Crypto.{Crypto}
use replica_t.Chrono.{Chrono}
use replica_t.Types.Error.{S3Error, status_code, error_code, message, Tried, returned, failed}
use replica_t.Types.Models.{DateTime, AuthContext, ListBucketResult}

pub record HeaderValue : Type 0 where
  -- `to_str().ok()`: the text of the value, where it is visible ASCII.
  pub to_str : Option Text

-- A turn of a stream of a body: a chunk, an error of which the text is kept, or a panic.
pub data BodyChunk : Type 0 where
  bytes : List ℕ → BodyChunk
  broken : Text → BodyChunk
  unwinds : BodyChunk

pub record Request : Type 0 where
  pub method : Text
  pub path : Text
  pub query : Option Text
  -- `HeaderMap::get`
  pub header : Text → Option HeaderValue
  pub body : List BodyChunk
  -- The extension that the middleware inserts.
  pub auth_context : Option AuthContext

-- The triple of which axum makes a response.
pub record Response : Type 0 where
  pub status : ℕ
  pub headers : List (Text × Text)
  pub body : List BodyChunk

pub record S3ErrorResponse : Type 0 where
  pub code : Text
  pub message : Text
  pub request_id : Text

-- What a request is served with: the libraries, the clock's reading, and the identifier that
-- `Uuid::new_v4` makes for its error.
pub record Env : Type 0 where
  pub crypto : Crypto
  pub chrono : Chrono
  pub error_to_xml : S3ErrorResponse → Tried Text
  pub list_to_xml : ListBucketResult → Tried Text
  pub now : DateTime
  pub request_id : Text

abbrev pub or_fallback : Tried Text → Text
or_fallback (returned body) = body
or_fallback (failed e) =
    text
      "<?xml version=\"1.0\" encoding=\"UTF-8\"?>\n<Error>\n    <Code>InternalError</Code>\n    <Message>Failed to serialize error response</Message>\n</Error>"

unfoldable pub into_response : Env → S3Error → Response
into_response env e = record {
  status = status_code e;
  headers = (text "content-type", text "application/xml") ∷ [];
  body =
      bytes (
        or_fallback (
          env.error_to_xml
            record { code = error_code e; message = message e; request_id = env.request_id }))
      ∷ [];
}
