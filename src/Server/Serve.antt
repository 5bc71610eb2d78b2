-- ===== src/Server/Serve.antt =====
-- A server over a sequence of requests: each is `create_app` of server.rs on what the one before it
-- left.
use replica_t.Common.{ℕ, List, [], ◌∷◌, All, ◌≡◌, refl}
use replica_t.Types.Error.{Result}
use replica_t.Types.Models.{DateTime}
use replica_t.Storage.Backend.{Call}
use replica_t.Storage.Simulation.{Alike}
use replica_t.Http.{Request, Response, Env}

-- A request, what it is served with, the clock when the storage is called, and the order in which
-- the concurrent calls that it leads to complete.
pub record Arrival : Type 0 where
  pub request : Request
  pub env : Env
  pub now : DateTime
  pub order : List ℕ

-- Requests one after the other: the responses, and the world after the last.
unfoldable pub serve :
    {W : Type 0} → (Arrival → Call W Response) → List Arrival → W → List (Result Response) × W
serve app [] w = ([], w)
serve app (a ∷ arrivals) w =
    let (r, w') = app a w in let (rs, w'') = serve app arrivals w' in (r ∷ rs, w'')

-- Two servers that answer each request alike from related worlds answer a sequence alike. The
-- relation may follow the clock.
module _ {W V : Type 0} (R : DateTime → W → V → Type 0) (P : Arrival → Type 0)
    (left : Arrival → Call W Response) (right : Arrival → Call V Response)
    (step : (a : Arrival) (now : DateTime) (w : W) (v : V)
      → P a
      → R now w v
      → Alike (R a.now) (left a w) (right a v)) where
  pub serve-Alike :
      (arrivals : List Arrival) (now : DateTime) (w : W) (v : V)
      → All P arrivals
      → R now w v
      → ((serve left arrivals w).0 ≡ (serve right arrivals v).0)
        × ((end : DateTime) × R end (serve left arrivals w).1 (serve right arrivals v).1)
  unfolding serve
  serve-Alike [] now w v each h = (refl, (now, h))
  serve-Alike (a ∷ arrivals) now w v each h =
      let first = step a now w v each.0 h in
      let (same, related) =
        serve-Alike arrivals a.now (left a w).1 (right a v).1 each.1 first.related in
      (λ i. first.same i ∷ same i, related)

-- What holds of each answer of a server holds of all of them.
pub serve_each :
    {W : Type 0} (P : Arrival → Type 0) (Q : Result Response → Type 0)
    (app : Arrival → Call W Response)
    → ((a : Arrival) (w : W) → P a → Q (app a w).0)
    → (arrivals : List Arrival) (w : W) → All P arrivals
    → All Q (serve app arrivals w).0
unfolding serve
serve_each P Q app each [] w h = tt
serve_each P Q app each (a ∷ arrivals) w h =
    (each a w h.0, serve_each P Q app each arrivals (app a w).1 h.1)
