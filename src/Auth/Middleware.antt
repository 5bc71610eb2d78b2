-- ===== src/Auth/Middleware.antt =====
-- auth/middleware.rs: the guard in front of every handler.
pub mod Client
pub mod Guards
use replica_t.Common.{Text, text, Option, none, some}
use replica_t.Types.Error.{S3Error, Result, ok, err, panic, access_denied}
use replica_t.Types.Models.{AuthContext}
use replica_t.Storage.Backend.{Call}
use replica_t.Http.{Request, Response, Env, into_response}
use replica_t.AppState.{AppState, find_credentials}
use replica_t.Auth.Authorization.{AuthorizationInfo, parse_authorization_header}
use replica_t.Auth.Signature.{header_text, verify_signature}

-- What the middleware wraps: the router.
abbrev pub Next : Type 0 → Type 0
Next W = Request → Call W Response

-- `return e.into_response()` on an error, and on with the value otherwise.
unfoldable pub or_respond {ℓ} :
    {A : Type ℓ} {W : Type 0} → Env → Result A → (A → Call W Response) → Call W Response
or_respond env (ok a) k world = k a world
or_respond env (err e) k world = (ok (into_response env e), world)
or_respond env panic k world = (panic, world)

-- `None => return S3Error::AccessDenied.into_response()`
abbrev pub or_denied {ℓ} : {A : Type ℓ} → Option A → Result A
or_denied none = err access_denied
or_denied (some a) = ok a

unfoldable pub authenticated : Request → AuthorizationInfo → Request
authenticated request info = record request {
  auth_context = some record { access_key_id = info.access_key_id };
}

unfoldable pub auth_middleware :
    {W : Type 0} → Env → AppState W → Request → Next W → Call W Response
unfolding or_respond authenticated
auth_middleware env app_state request next =
    or_respond env (or_denied (header_text (request.header (text "authorization")))) λ auth_header.
      or_respond env (parse_authorization_header auth_header) λ auth_info.
        or_respond env (or_denied (find_credentials app_state.credentials auth_info.access_key_id))
          λ credentials.
            or_respond env
              (verify_signature env.crypto env.chrono env.now request auth_info credentials)
              λ _. next (authenticated request auth_info)
