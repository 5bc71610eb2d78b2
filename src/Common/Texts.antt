-- ===== src/Common/Texts.antt =====
-- The text operations of the standard library that the server calls: splitting, joining, trimming.
-- The texts are ASCII: header values, which `to_str` checked, and the path and query of a URI.
pub mod Parts
pub mod Ends
use Prim.Native.Nat.{ℕ, zero, suc}
use native.Mathlib.Omega.{arith}
use mathlib.Core.Path.{◌≡◌, refl, ap, subst}
use mathlib.Core.Logic.{◌≢◌, inl, inr}
use mathlib.Core.Bool.{Bool, false, ◌&&◌, ◌||◌}
use mathlib.Core.Option.{Option, none, some}
use mathlib.Core.List.{List, [], ◌∷◌, ◌++◌, append_assoc, append-nil}
use replica_t.Common.Tests.{◌==◌, leb, if◌then◌else◌, Bool-cases, ==_refl}
use replica_t.Common.Lists.{All, length}
use replica_t.Common.Chars.{Text}

-- `char::is_whitespace` on ASCII.
unfoldable pub is_whitespace : ℕ → Bool
is_whitespace b = b == 32 || (leb 9 b && leb b 13)

unfoldable pub trim_start : Text → Text
trim_start [] = []
trim_start (b ∷ s) = let rest = trim_start s in if is_whitespace b then rest else b ∷ s

-- `b` in front of a text whose end is trimmed.
unfoldable pub trim_cons : ℕ → Text → Text
trim_cons b [] = if is_whitespace b then [] else b ∷ []
trim_cons b (c ∷ s) = b ∷ c ∷ s

unfoldable pub trim_end : Text → Text
unfolding trim_cons
trim_end [] = []
trim_end (b ∷ s) = trim_cons b (trim_end s)

unfoldable pub trim : Text → Text
trim s = trim_end (trim_start s)

unfoldable pub strip_prefix : Text → Text → Option Text
strip_prefix s [] = some s
strip_prefix [] (b ∷ p) = none
strip_prefix (a ∷ s) (b ∷ p) = let rest = strip_prefix s p in if a == b then rest else none

-- Each round strips a prefix that is not empty, so the length of the text is enough fuel.
unfoldable pub strip_all : ℕ → Text → Text → Text
strip_all zero s p = s
strip_all (suc fuel) s p = elim (strip_prefix s p) [ none ↦ s | some rest ↦ strip_all fuel rest p ]

-- `trim_start_matches` with a prefix that is not empty: every copy of it in front goes.
unfoldable pub trim_start_matches : Text → Text → Text
unfolding strip_all
trim_start_matches s p = strip_all (length s) s p

unfoldable pub push_head : ℕ → List Text → List Text
push_head b [] = (b ∷ []) ∷ []
push_head b (p ∷ ps) = (b ∷ p) ∷ ps

-- `str::split`, which yields at least one part.
unfoldable pub split : Text → ℕ → List Text
unfolding push_head
split [] sep = [] ∷ []
split (b ∷ s) sep = let rest = split s sep in if b == sep then [] ∷ rest else push_head b rest

unfoldable pub split_once : Text → ℕ → Option (Text × Text)
split_once [] sep = none
split_once (b ∷ s) sep =
    let rest = split_once s sep in
    if b == sep
    then some ([], s)
    else elim rest [ none ↦ none | some halves ↦ some (b ∷ halves.0, halves.1) ]

-- `join` on a slice of texts.
unfoldable pub join : List Text → Text → Text
join [] sep = []
join (p ∷ []) sep = p
join (p ∷ q ∷ ps) sep = p ++ sep ++ join (q ∷ ps) sep

-- Each round takes a byte or more, so the length of the text is enough fuel.
unfoldable pub replace_within : ℕ → Text → Text → Text → Text
replace_within zero s from to = s
replace_within (suc fuel) [] from to = []
replace_within (suc fuel) (b ∷ s) from to = elim (strip_prefix (b ∷ s) from) [
  | none ↦ b ∷ replace_within fuel s from to
  | some rest ↦ to ++ replace_within fuel rest from to
]

-- `str::replace` of a text that is not empty: each copy of it, from the left.
unfoldable pub replace : Text → Text → Text → Text
unfolding replace_within
replace s from to = replace_within (length s) s from to

-- No byte of the text is `sep`.
abbrev pub Lacks : ℕ → Text → Type 0
Lacks sep s = All (λ b. (b == sep) ≡ false) s

-- Texts without white space.
abbrev pub IsSolid : Text → Type 0
IsSolid s = All (λ b. is_whitespace b ≡ false) s
