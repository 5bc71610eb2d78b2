-- ===== src/Auth/Canonical/Query.antt =====
-- What `canonicalize_query_string` of auth/signature.rs makes of a query.
use mathlib.Core.List.{Perm}
use mathlib.Core.List.Perm
use replica_t.Common.{Text, text, join, Lacks, All, text_le, true, List, [], ◌∷◌, map, ◌≡◌}
use replica_t.Auth.Canonical.{Param, print_param}

-- A parameter as `read_param` reads it from a part of a query.
abbrev IsParam : Param → Type 0
IsParam p = Lacks b'=' p.0 × Lacks b'&' p.0 × Lacks b'&' p.1

abbrev print_params : List Param → Text
print_params ps = join (map print_param ps) (text "&")

-- Ascending by name, and by value where the names are equal, in the order of bytes.
abbrev pub IsBefore : Param → Param → Type 0
IsBefore a b = (text_le a.0 b.0 ≡ true) × (a.0 ≡ b.0 → text_le a.1 b.1 ≡ true)

abbrev pub IsAscending : List Param → Type 0
IsAscending [] = Unit
IsAscending (p ∷ ps) = All (IsBefore p) ps × IsAscending ps
