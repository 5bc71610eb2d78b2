-- ===== src/Auth/Authorization/Tokens.antt =====
-- The bytes that the parts of an Authorization header are made of.
use replica_t.Common.{
  ℕ, Text, All, IsSolid, Lacks, is_whitespace, ◌==◌, false, ◌||◌, List, [], ◌∷◌, ◌≡◌, arith,
}

-- The bytes of a name: no white space, none of the three separators.
abbrev pub IsName : Text → Type 0
IsName s = All (λ b. (is_whitespace b || b == b',' || b == b'/' || b == b';') ≡ false) s

All-weaken : (P Q : ℕ → Type 0) (s : Text) → ((b : ℕ) → P b → Q b) → All P s → All Q s
All-weaken P Q [] f h = tt
All-weaken P Q (b ∷ s) f h = (f b h.0, All-weaken P Q s f h.1)

-- Neither white space nor a comma.
abbrev pub IsToken : ℕ → Type 0
IsToken b = (is_whitespace b || b == b',') ≡ false

pub IsName-IsSolid : (s : Text) → All IsToken s → IsSolid s
IsName-IsSolid s = All-weaken IsToken (λ b. is_whitespace b ≡ false) s λ b h. ground arith

pub IsToken-IsName : (s : Text) → IsName s → All IsToken s
IsToken-IsName s =
    All-weaken (λ b. (is_whitespace b || b == b',' || b == b'/' || b == b';') ≡ false) IsToken s
      λ b h. ground arith

pub IsTokens-IsName : (ss : List Text) → All IsName ss → All (All IsToken) ss
IsTokens-IsName [] h = tt
IsTokens-IsName (s ∷ ss) h = (IsToken-IsName s h.0, IsTokens-IsName ss h.1)

pub Lacks-IsToken : (s : Text) → All IsToken s → Lacks b',' s
Lacks-IsToken s = All-weaken IsToken (λ b. (b == b',') ≡ false) s λ b h. ground arith

pub Lacks-IsName :
    (sep : ℕ) (ss : List Text)
    → ((b : ℕ)
        → (is_whitespace b || b == b',' || b == b'/' || b == b';') ≡ false
        → (b == sep) ≡ false)
    → All IsName ss
    → All (Lacks sep) ss
Lacks-IsName sep [] f h = tt
Lacks-IsName sep (s ∷ ss) f h = (
  All-weaken (λ b. (is_whitespace b || b == b',' || b == b'/' || b == b';') ≡ false)
      (λ b. (b == sep) ≡ false) s f h.0,
  Lacks-IsName sep ss f h.1,
)
