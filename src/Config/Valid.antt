-- ===== src/Config/Valid.antt =====
-- What a validated configuration guarantees.
use replica_t.Common.{
  ℕ, zero, suc, ◌≡◌, ◌≢◌, ◌↔◌, inl, inr, refl, Text, text_eq, text_eq_iff, true, false, some, List,
  [], ◌∷◌, get_elem?, arith, Option-cases, Bool-cases,
}
use replica_t.Config.File.{
  BackendConfig, Config, Loaded, success, failure, name, seen, check_unique, check_exclusive,
  any_named, check_primary, validate, ◌>>◌,
}

-- No two positions of the list bear one name.
abbrev pub NamesDiffer : List BackendConfig → Type 0
NamesDiffer [] = Unit
NamesDiffer (b ∷ backends) =
    ((i : ℕ) (c : BackendConfig) → get_elem? backends i ≡ some c → name c ≢ name b)
    × NamesDiffer backends

-- A primary that is named is one of the backends, and is not also to be found by latency.
abbrev pub PrimaryChosen : Config → Type 0
PrimaryChosen c =
    (n : Text)
    → c.primary_backend_name ≡ some n
    → (c.use_latency_based_primary_backend ≢ some true)
      × ((i : ℕ) × (b : BackendConfig) × (get_elem? c.backends i ≡ some b) × (name b ≡ n))

-- `names` holds none of the backends' names.
abbrev Fresh : List Text → List BackendConfig → Type 0
Fresh names backends =
    (i : ℕ) (c : BackendConfig) → get_elem? backends i ≡ some c → seen (name c) names ≡ false

Fresh-cons :
    (names : List Text) (b : BackendConfig) (backends : List BackendConfig)
    → seen (name b) names ≡ false
    → Fresh (name b ∷ names) backends
    → Fresh names (b ∷ backends)
unfolding seen
Fresh-cons names b backends h fresh zero c e = ground (arith, h, e)
Fresh-cons names b backends h fresh (suc i) c e = ground (arith, fresh i c, e)

Fresh-differ :
    (names : List Text) (b : BackendConfig) (backends : List BackendConfig)
    → Fresh (name b ∷ names) backends
    → (i : ℕ) (c : BackendConfig) → get_elem? backends i ≡ some c
    → name c ≢ name b
unfolding seen
Fresh-differ names b backends fresh i c e x =
    ground (arith, fresh i c, e, x, text_eq_iff (name b) (name c))

check_unique_sound :
    (names : List Text) (backends : List BackendConfig)
    → check_unique names backends ≡ success tt
    → Fresh names backends × NamesDiffer backends
unfolding check_unique
check_unique_sound names [] h = (λ i c e. ground (arith, e), tt)
check_unique_sound names (b ∷ backends) h =
    let (fresh, differ) = check_unique_sound (name b ∷ names) backends (ground (arith, h)) in
    (
      Fresh-cons names b backends (ground (arith, h)) fresh,
      (Fresh-differ names b backends fresh, differ),
    )

Fresh-tail :
    (names : List Text) (b : BackendConfig) (backends : List BackendConfig)
    → Fresh names (b ∷ backends)
    → ((i : ℕ) (c : BackendConfig) → get_elem? backends i ≡ some c → name c ≢ name b)
    → Fresh (name b ∷ names) backends
unfolding seen
Fresh-tail names b backends fresh differ i c e =
    ground (arith, fresh (suc i) c e, differ i c e, text_eq_iff (name b) (name c))

check_unique_complete :
    (names : List Text) (backends : List BackendConfig)
    → Fresh names backends
    → NamesDiffer backends
    → check_unique names backends ≡ success tt
unfolding check_unique
check_unique_complete names [] fresh d = refl
check_unique_complete names (b ∷ backends) fresh d =
    rw (fresh zero b refl)
      (check_unique_complete (name b ∷ names) backends (Fresh-tail names b backends fresh d.0) d.1)

any_named_sound :
    (n : Text) (backends : List BackendConfig)
    → any_named n backends ≡ true
    → (i : ℕ) × (b : BackendConfig) × (get_elem? backends i ≡ some b) × (name b ≡ n)
unfolding any_named
any_named_sound n [] h = absurd (ground (arith, h))
any_named_sound n (b ∷ backends) h = elim (Bool-cases (text_eq (name b) n)) [
  | inl e ↦ (zero, b, refl, (text_eq_iff (name b) n).0 e)
  | inr e ↦
      let (i, c, at, same) = any_named_sound n backends (ground (arith, h, e)) in
      (suc i, c, at, same)
]

any_named_complete :
    (n : Text) (backends : List BackendConfig) (i : ℕ) (b : BackendConfig)
    → get_elem? backends i ≡ some b
    → name b ≡ n
    → any_named n backends ≡ true
unfolding any_named
any_named_complete n [] i b e h = ground (arith, e)
any_named_complete n (c ∷ backends) zero b e h = ground (arith, e, h, text_eq_iff (name c) n)
any_named_complete n (c ∷ backends) (suc i) b e h =
    ground (arith, any_named_complete n backends i b e h)

primary_sound :
    (c : Config)
    → check_exclusive c ≡ success tt
    → check_primary c.primary_backend_name c.backends ≡ success tt
    → PrimaryChosen c
unfolding check_exclusive check_primary
primary_sound c x p n e =
    (λ l. ground (arith, x, e, l), any_named_sound n c.backends (ground (arith, p, e)))

primary_complete :
    (c : Config)
    → PrimaryChosen c
    → (check_exclusive c ≡ success tt)
      × (check_primary c.primary_backend_name c.backends ≡ success tt)
unfolding check_exclusive check_primary
primary_complete c chosen = elim (Option-cases c.primary_backend_name) [
  | inl e ↦ (ground (arith, e), ground (arith, e))
  | inr (n, e) ↦
      let (no_latency, (i, b, at, same)) = chosen n e in
      (
        ground (arith, e, no_latency),
        ground (arith, e, any_named_complete n c.backends i b at same),
      )
]

both : (m k : Loaded (Unit {0})) → (m >> k) ≡ success tt → (m ≡ success tt) × (k ≡ success tt)
both (success a) k h = (refl, h)
both (failure e) k h = absurd (ground (arith, h))

-- A configuration passes validation exactly if its backends' names differ, and a primary that it
-- names is one of them and is not also to be chosen by latency.
pub validate_iff :
    (c : Config) → (validate c ≡ success tt) ↔ (NamesDiffer c.backends × PrimaryChosen c)
unfolding validate
validate_iff c = (
  λ h.
      let (unique, rest) = both (check_unique [] c.backends) _ h in
      let (exclusive, named) = both (check_exclusive c) _ rest in
      ((check_unique_sound [] c.backends unique).1, primary_sound c exclusive named),
  λ (differ, chosen).
      let (exclusive, named) = primary_complete c chosen in
      rw (check_unique_complete [] c.backends (λ i b e. unfold seen in refl) differ)
        (rw exclusive named),
)
