-- ===== src/Auth/Middleware/Guards.antt =====
-- What the guard of auth/middleware.rs lets through, and how it answers the rest.
use replica_t.Common.{Text, text, inl, inr, Option, none, some, ◌≡◌, ◌⊎◌, refl, arith}
use replica_t.Types.Error.{S3Error, status_code, Result, ok, access_denied}
use replica_t.Types.Models.{Credentials}
use replica_t.Storage.Backend.{Call}
use replica_t.Http.{Request, Response, Env, into_response}
use replica_t.AppState.{AppState, find_credentials}
use replica_t.Auth.Authorization.{AuthorizationInfo, parse_authorization_header}
use replica_t.Auth.Authorization.Accepted.{parse_authorization_header-IsChecked}
use replica_t.Auth.Signature.{header_text, verify_signature}
use replica_t.Auth.Signature.Checked.{
  IsRefusal, IsCheck, IsLongDate, IsCheck-IsChecked, verify_signature-IsCheck,
}
use replica_t.Auth.Signature.Verified.{Mac, IsMac}
use replica_t.Auth.Middleware.{Next, or_respond, or_denied, authenticated, auth_middleware}

-- What passed the guard.
pub record IsAuthenticated {W : Type 0} (env : Env) (app_state : AppState W) (request : Request)
    (info : AuthorizationInfo) : Type 0 where
  pub auth_header : Text
  pub credentials : Credentials
  pub present : header_text (request.header (text "authorization")) ≡ some auth_header
  pub parsed : parse_authorization_header auth_header ≡ ok info
  pub known : find_credentials app_state.credentials info.access_key_id ≡ some credentials
  pub verified : verify_signature env.crypto env.chrono env.now request info credentials ≡ ok tt

or_denied-IsCheck {ℓ} : {A : Type ℓ} (o : Option A) → IsCheck (or_denied o)
unfolding status_code
or_denied-IsCheck none = inr (access_denied, inr refl, refl)
or_denied-IsCheck (some a) = inl (a, refl)

or_denied-eq-ok {ℓ} : {A : Type ℓ} (o : Option A) (a : A) → or_denied o ≡ ok a → o ≡ some a
or_denied-eq-ok none a h = absurd (ground (arith, h))
or_denied-eq-ok (some b) a h = ground (arith, h)

-- The answer to a request that is refused: an error response, before anything was touched.
abbrev pub IsRefused : {W : Type 0} → Env → W → Result Response × W → Type 0
IsRefused env world outcome =
    (e : S3Error) × IsRefusal e × (outcome ≡ (ok (into_response env e), world))

or_respond-IsCheck {ℓ κ} :
    {A : Type ℓ} {W : Type 0} (env : Env) (r : Result A) (k : A → Call W Response) (world : W)
    {P : Type κ}
    → IsCheck r
    → ((a : A) → r ≡ ok a → P ⊎ IsRefused env world (k a world))
    → P ⊎ IsRefused env world (or_respond env r k world)
unfolding or_respond
or_respond-IsCheck env r k world (inl (a, e)) each = rw e (each a e)
or_respond-IsCheck env r k world (inr (e, refused, h)) each = rw h (inr (e, refused, refl))

module _ {W : Type 0} (env : Env) (app_state : AppState W) (request : Request) (next : Next W)
    (world : W) where
  -- A request that passes every check is run, with the key that signed it as its context.
  pub auth_middleware-authenticated :
      (info : AuthorizationInfo)
      → IsAuthenticated env app_state request info
      → auth_middleware env app_state request next world ≡ next (authenticated request info) world
  unfolding auth_middleware or_respond
  auth_middleware-authenticated info a = rw (a.present, a.parsed, a.known, a.verified) refl

  -- Where HMAC takes every key and a time of RFC 2822 has at least eight bytes: either all checks
  -- pass and the request is run, with the key that signed it as its context, or it is
  -- answered with an error of status 400 or 403, and nothing is touched. The guard never panics.
  pub auth_middleware_guards :
      (mac : Mac)
      → IsMac env.crypto mac
      → IsLongDate env.chrono
      → ((info : AuthorizationInfo) × IsAuthenticated env app_state request info
          × (auth_middleware env app_state request next world
              ≡ next (authenticated request info) world))
        ⊎ IsRefused env world (auth_middleware env app_state request next world)
  unfolding auth_middleware
  auth_middleware_guards mac total dates =
      or_respond-IsCheck env (or_denied (header_text (request.header (text "authorization")))) _
        world (or_denied-IsCheck _)
        λ header present.
          or_respond-IsCheck env (parse_authorization_header header) _ world
            (IsCheck-IsChecked _ (parse_authorization_header-IsChecked header))
            λ info parsed.
              or_respond-IsCheck env
                (or_denied (find_credentials app_state.credentials info.access_key_id)) _ world
                (or_denied-IsCheck _)
                λ credentials known.
                  or_respond-IsCheck env
                    (verify_signature env.crypto env.chrono env.now request info credentials) _
                    world (verify_signature-IsCheck env mac total dates request info credentials)
                    λ u verified.
                      let a : IsAuthenticated env app_state request info = record {
                        auth_header = header;
                        credentials = credentials;
                        present = or_denied-eq-ok _ header present;
                        parsed = parsed;
                        known = or_denied-eq-ok _ credentials known;
                        verified = verified;
                      } in
                      inl (info, a, auth_middleware-authenticated info a)
