-- ===== src/Server/Simulated/Steps.antt =====
-- The guard, the extractors and the responses of the server, over two storages.
use replica_t.Common.{
  ℕ, zero, suc, Text, text, get_elem?, Option-cases, ◌⊎◌, inl, inr, none, some, List, [], ◌∷◌, ◌≡◌,
  refl, ap,
}
use replica_t.Types.Error.{Result, ok, err, panic, Tried, returned, failed, ◌>>=◌}
use replica_t.Storage.Backend.{StorageBackend, Call}
use replica_t.Storage.Simulation.{Alike}
use replica_t.Http.{Request, Response, Env, into_response}
use replica_t.AppState.{AppState, CredentialsStore, find_credentials}
use replica_t.Auth.Authorization.{parse_authorization_header}
use replica_t.Auth.Signature.{header_text, verify_signature}
use replica_t.Auth.Middleware.{Next, or_respond, or_denied, authenticated, auth_middleware}
use replica_t.Handlers.{answer}
use replica_t.Server.{Axum, respond, extract, with_auth}

-- The application over a storage.
abbrev pub app_with : {W : Type 0} → StorageBackend W → CredentialsStore → Text → AppState W
app_with storage credentials bucket_name = record {
  storage = storage;
  credentials = credentials;
  bucket_name = bucket_name;
}

-- Two lists of one length, pair by pair.
module _ {A B : Type 0} (P : A → B → Type 0) where
  abbrev pub Both : List A → List B → Type 0
  Both [] [] = Unit
  Both [] (y ∷ ys) = ⊥
  Both (x ∷ xs) [] = ⊥
  Both (x ∷ xs) (y ∷ ys) = P x y × Both xs ys

  pub Both-get_elem? :
      (xs : List A) (ys : List B) (i : ℕ)
      → Both xs ys
      → ((get_elem? xs i ≡ none) × (get_elem? ys i ≡ none))
        ⊎ ((x : A) × (y : B) × (get_elem? xs i ≡ some x) × (get_elem? ys i ≡ some y) × P x y)
  Both-get_elem? [] [] i h = inl (refl, refl)
  Both-get_elem? [] (y ∷ ys) i h = absurd h
  Both-get_elem? (x ∷ xs) [] i h = absurd h
  Both-get_elem? (x ∷ xs) (y ∷ ys) zero h = inr (x, y, refl, refl, h.0)
  Both-get_elem? (x ∷ xs) (y ∷ ys) (suc i) h = Both-get_elem? xs ys i h.1

-- What `respond` makes of a result.
abbrev responded : Env → Result Response → Result Response
responded env (ok response) = ok response
responded env (err e) = ok (into_response env e)
responded env panic = panic

respond-eq :
    {W : Type 0} (env : Env) (x : Result Response × W) → respond env x ≡ (responded env x.0, x.1)
unfolding respond
respond-eq env (ok response, w) = refl
respond-eq env (err e, w) = refl
respond-eq env (panic, w) = refl

module _ {W V : Type 0} (R : W → V → Type 0) (env : Env) where
  pub Alike-pair :
      {A : Type 0} {r r' : Result A} {w : W} {v : V} → r ≡ r' → R w v → Alike R (r, w) (r', v)
  Alike-pair e h = record { same = e; related = h }

  respond-Alike :
      (x : Result Response × W) (y : Result Response × V)
      → Alike R x y
      → Alike R (respond env x) (respond env y)
  respond-Alike x y h =
      rw (respond-eq env x)
        (rw (respond-eq env y) record { same = ap (responded env) h.same; related = h.related })

  pub answer-Alike :
      {A : Type 0} (x : Result A × W) (y : Result A × V) (f : A → Result Response)
      → Alike R x y
      → Alike R (respond env (answer x f)) (respond env (answer y f))
  answer-Alike x y f h =
      respond-Alike (answer x f) (answer y f)
        record { same = ap (λ r. r >>= f) h.same; related = h.related }

  or_respond-Alike {ℓ} :
      {A : Type ℓ} (r : Result A) (k : A → Call W Response) (k' : A → Call V Response) (w : W)
      (v : V)
      → R w v
      → ((a : A) → Alike R (k a w) (k' a v))
      → Alike R (or_respond env r k w) (or_respond env r k' v)
  unfolding or_respond
  or_respond-Alike (ok a) k k' w v h each = each a
  or_respond-Alike (err e) k k' w v h each = (Alike-pair refl h)
  or_respond-Alike panic k k' w v h each = (Alike-pair refl h)

  -- The guard, in front of two routers that end alike.
  pub auth_middleware-Alike :
      (storage : StorageBackend W) (storage' : StorageBackend V) (credentials : CredentialsStore)
      (bucket_name : Text) (request : Request) (next : Next W) (next' : Next V) (w : W) (v : V)
      → R w v
      → ((r : Request) → r.body ≡ request.body → Alike R (next r w) (next' r v))
      → Alike R
          (auth_middleware env (app_with storage credentials bucket_name) request next w)
          (auth_middleware env (app_with storage' credentials bucket_name) request next' v)
  unfolding auth_middleware
  auth_middleware-Alike storage storage' credentials bucket_name request next next' w v h each =
      or_respond-Alike (or_denied (header_text (request.header (text "authorization")))) _ _ w v h
        λ header. or_respond-Alike (parse_authorization_header header) _ _ w v h λ info.
          or_respond-Alike (or_denied (find_credentials credentials info.access_key_id)) _ _ w v h
            λ found.
              or_respond-Alike (verify_signature env.crypto env.chrono env.now request info found) _
                _ w v h λ verified. each (authenticated request info) refl

  module _ (axum : Axum) where
    pub extract-Alike {ℓ} :
        {A : Type ℓ} (r : Tried A) (k : A → Call W Response) (k' : A → Call V Response) (w : W)
        (v : V)
        → R w v
        → ((a : A) → Alike R (k a w) (k' a v))
        → Alike R (extract axum r k w) (extract axum r k' v)
    extract-Alike (returned a) k k' w v h each = each a
    extract-Alike (failed e) k k' w v h each = (Alike-pair refl h)

    pub with_auth-Alike :
        (request : Request) (k : Call W Response) (k' : Call V Response) (w : W) (v : V)
        → R w v
        → Alike R (k w) (k' v)
        → Alike R (with_auth axum request k w) (with_auth axum request k' v)
    with_auth-Alike request k k' w v h each = elim (Option-cases request.auth_context) [
      | inl e ↦ rw (with_auth, e) (Alike-pair refl h)
      | inr (auth, e) ↦ rw (with_auth, e) each
    ]
