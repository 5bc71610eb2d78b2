-- ===== src/Auth/Authorization/Accepted.antt =====
-- Which headers the parser of auth/signature.rs accepts, and how it refuses the others.
use replica_t.Common.{
  Text, text, starts_with, trim_start_matches, split, split-Lacks, split-ne-nil, split-join, join,
  Lacks, All, length, true, Bool-cases, inl, inr, Option, none, some, List, [], ◌∷◌, ◌≡◌, ◌≢◌, ◌⊎◌,
  refl, arith, ◌==◌, subst,
}
use replica_t.Types.Error.{Result, ok, err, invalid_request, ◌>>=◌, bind-eq-ok}
use replica_t.Auth.Authorization.{
  AuthorizationInfo, Components, scheme, no_components, required, read_parts, read_credential,
  read_components, parse_authorization_header,
}

-- A call returns a value, or refuses as an invalid request.
abbrev pub IsChecked {ℓ} : {A : Type ℓ} → Result A → Type ℓ
IsChecked {A = A} r = ((a : A) × (r ≡ ok a)) ⊎ ((msg : Text) × (r ≡ err (invalid_request msg)))

pub bind-IsChecked {ℓ κ} :
    {A : Type ℓ} {B : Type κ} (r : Result A) (f : A → Result B)
    → IsChecked r
    → ((a : A) → IsChecked (f a))
    → IsChecked (r >>= f)
bind-IsChecked r f (inl (a, e)) each = rw e (each a)
bind-IsChecked r f (inr (msg, e)) each = rw e (inr (msg, refl))

required-IsChecked {ℓ} : {A : Type ℓ} (o : Option A) (msg : Text) → IsChecked (required o msg)
required-IsChecked none msg = inr (msg, refl)
required-IsChecked (some a) msg = inl (a, refl)

read_credential-IsChecked : (parts : List Text) → parts ≢ [] → IsChecked (read_credential parts)
unfolding read_credential
read_credential-IsChecked [] h = absurd (h refl)
read_credential-IsChecked (key ∷ scope) h = elim (Bool-cases (length (key ∷ scope) == 5)) [
  | inl e ↦ rw e (inl (_, refl))
  | inr e ↦ rw e (inr (_, refl))
]

read_components-IsChecked : (c : Components) → IsChecked (read_components c)
unfolding read_components
read_components-IsChecked c =
    bind-IsChecked (required c.credential _) _ (required-IsChecked c.credential _) λ credential.
      bind-IsChecked (required c.signed_headers _) _ (required-IsChecked c.signed_headers _)
        λ signed_headers.
          bind-IsChecked (required c.signature _) _ (required-IsChecked c.signature _) λ signature.
            bind-IsChecked (read_credential (split credential b'/')) _
              (read_credential-IsChecked (split credential b'/') (split-ne-nil b'/' credential))
              λ _. inl (_, refl)

-- Every header is parsed to a value or refused with InvalidRequest: parsing does not panic.
pub parse_authorization_header-IsChecked :
    (header : Text) → IsChecked (parse_authorization_header header)
unfolding parse_authorization_header
parse_authorization_header-IsChecked header = elim (Bool-cases (starts_with header scheme)) [
  | inl e ↦ rw e (read_components-IsChecked _)
  | inr e ↦ rw e (inr (_, refl))
]

-- What an accepted header is parsed to.
pub record IsParsed (info : AuthorizationInfo) : Type 0 where
  pub key_no_slash : Lacks b'/' info.access_key_id
  pub scope_of_four : length (split info.credential_scope b'/') ≡ 4
  pub some_header : info.signed_headers ≢ []
  pub headers_no_semicolon : All (Lacks b';') info.signed_headers

read_credential-IsParsed :
    (parts : List Text) (pair : Text × Text)
    → All (Lacks b'/') parts
    → read_credential parts ≡ ok pair
    → Lacks b'/' pair.0 × (length (split pair.1 b'/') ≡ 4)
unfolding read_credential text
read_credential-IsParsed [] pair a h = absurd (ground (arith, h))
read_credential-IsParsed (key ∷ scope) pair a h =
    let five : length (key ∷ scope) ≡ 5 = ground (arith, h) in
    let keys : key ≡ pair.0 = ground (arith, h) in
    let scopes : join scope (b'/' ∷ []) ≡ pair.1 = ground (arith, h) in
    let some_part : scope ≢ [] = λ e. let z : length scope ≡ 0 = rw e refl in omega arith in
    let four : length (split (join scope (b'/' ∷ [])) b'/') ≡ 4 =
      rw (split-join b'/' scope some_part a.1) (omega arith) in
    (subst (Lacks b'/') keys a.0, subst (λ t. length (split t b'/') ≡ 4) scopes four)

read_components-IsParsed :
    (c : Components) (info : AuthorizationInfo) → read_components c ≡ ok info → IsParsed info
unfolding read_components
read_components-IsParsed c info h =
    let (credential, e, h1) = bind-eq-ok (required c.credential _) _ h in
    let (signed, f, h2) = bind-eq-ok (required c.signed_headers _) _ h1 in
    let (signature, g, h3) = bind-eq-ok (required c.signature _) _ h2 in
    let (pair, k, h4) = bind-eq-ok (read_credential (split credential b'/')) _ h3 in
    let (key_ok, scope_ok) =
      read_credential-IsParsed (split credential b'/') pair (split-Lacks credential b'/') k in
    let parsed : AuthorizationInfo = record {
      access_key_id = pair.0;
      credential_scope = pair.1;
      signed_headers = split signed b';';
      signature = signature;
    } in
    let same : parsed ≡ info = ground (arith, h4) in
    subst IsParsed same record {
      key_no_slash = key_ok;
      scope_of_four = scope_ok;
      some_header = split-ne-nil b';' signed;
      headers_no_semicolon = split-Lacks signed b';';
    }

-- An accepted header begins with the scheme and a space; it is parsed to a key without a slash, a
-- scope of four parts between slashes, and at least one signed header, each without a semicolon.
pub parse_authorization_header-IsParsed :
    (header : Text) (info : AuthorizationInfo)
    → parse_authorization_header header ≡ ok info
    → (starts_with header scheme ≡ true) × IsParsed info
unfolding parse_authorization_header
parse_authorization_header-IsParsed header info h = elim (Bool-cases (starts_with header scheme)) [
  | inl e ↦ (
    e,
    read_components-IsParsed
        (read_parts (split (trim_start_matches header scheme) b',') no_components) info
        (ground (arith, h, e)),
  )
  | inr e ↦ absurd (ground (arith, h, e))
]
