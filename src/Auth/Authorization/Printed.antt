-- ===== src/Auth/Authorization/Printed.antt =====
-- The Authorization header that a client prints, and what the parser of auth/signature.rs reads.
use replica_t.Common.{
  Text, text, All, All-append, All-join, is_whitespace, starts_with, strip_prefix,
  strip_prefix-append, trim_start_matches-append, trim, trim-IsSolid, trim-space, split, split-join,
  join, length, ◌==◌, true, none, some, List, [], ◌∷◌, ◌++◌, ◌≡◌, refl, ap, ◌≢◌, arith,
}
use replica_t.Types.Error.{ok}
use replica_t.Auth.Authorization.Tokens.{
  IsName, IsToken, IsName-IsSolid, IsToken-IsName, IsTokens-IsName, Lacks-IsToken, Lacks-IsName,
}
use replica_t.Auth.Authorization.{
  AuthorizationInfo, Components, scheme, no_components, read_part, read_parts, read_credential,
  read_components, parse_authorization_header,
}

-- What an `AuthorizationInfo` is printed from: a key, the four parts of a scope, the names of the
-- signed headers, and a signature.
pub record Parts : Type 0 where
  pub access_key_id : Text
  pub scope : List Text
  pub signed_headers : List Text
  pub signature : Text

abbrev pub info_of : Parts → AuthorizationInfo
info_of p = record {
  access_key_id = p.access_key_id;
  credential_scope = join p.scope (text "/");
  signed_headers = p.signed_headers;
  signature = p.signature;
}

pub record IsPrintable (p : Parts) : Type 0 where
  pub key_name : IsName p.access_key_id
  pub scope_names : All IsName p.scope
  pub four_parts : length p.scope ≡ 4
  pub header_names : All IsName p.signed_headers
  pub some_header : p.signed_headers ≢ []
  pub signature_name : IsName p.signature

-- The three components, as `Credential=…` and so on.
abbrev credential_part : Parts → Text
credential_part p = text "Credential=" ++ join (p.access_key_id ∷ p.scope) (text "/")

abbrev headers_part : Parts → Text
headers_part p = text "SignedHeaders=" ++ join p.signed_headers (text ";")

abbrev signature_part : Parts → Text
signature_part p = text "Signature=" ++ p.signature

unfoldable pub print_authorization : Parts → Text
print_authorization p =
    scheme
    ++ join (credential_part p ∷ (32 ∷ headers_part p) ∷ (32 ∷ signature_part p) ∷ []) (text ",")

read_parts-cons :
    (part : Text) (parts : List Text) (c : Components)
    → read_parts (part ∷ parts) c ≡ read_parts parts (read_part (trim part) c)
unfolding read_parts
read_parts-cons part parts c = refl

parse_authorization_header-scheme :
    (s : Text)
    → strip_prefix s scheme ≡ none
    → parse_authorization_header (scheme ++ s)
      ≡ read_components (read_parts (split s b',') no_components)
unfolding parse_authorization_header starts_with text
parse_authorization_header-scheme s h =
    ap (λ rest. read_components (read_parts (split rest b',') no_components))
      (trim_start_matches-append b'A' (text "WS4-HMAC-SHA256 ") s h)

module _ (p : Parts) (w : IsPrintable p) where
  credential_part-IsToken : All IsToken (credential_part p)
  unfolding is_whitespace text
  credential_part-IsToken =
      All-append IsToken (text "Credential=") (join (p.access_key_id ∷ p.scope) (text "/"))
        (ground arith)
        (All-join IsToken (text "/") (p.access_key_id ∷ p.scope) (ground arith)
          (IsTokens-IsName (p.access_key_id ∷ p.scope) (w.key_name, w.scope_names)))

  headers_part-IsToken : All IsToken (headers_part p)
  unfolding is_whitespace text
  headers_part-IsToken =
      All-append IsToken (text "SignedHeaders=") (join p.signed_headers (text ";")) (ground arith) (
        All-join IsToken (text ";") p.signed_headers (ground arith)
          (IsTokens-IsName p.signed_headers w.header_names))

  signature_part-IsToken : All IsToken (signature_part p)
  unfolding is_whitespace text
  signature_part-IsToken =
      All-append IsToken (text "Signature=") p.signature (ground arith)
        (IsToken-IsName p.signature w.signature_name)

  read_part-credential :
      (c : Components)
      → read_part (trim (credential_part p)) c
        ≡ record c { credential = some (join (p.access_key_id ∷ p.scope) (text "/")) }
  unfolding read_part strip_prefix join text
  read_part-credential c =
      rw
        (
          trim-IsSolid (credential_part p)
              (IsName-IsSolid (credential_part p) credential_part-IsToken),
          strip_prefix-append (text "Credential=") (join (p.access_key_id ∷ p.scope) (text "/")),
        )
        refl

  read_part-headers :
      (c : Components)
      → read_part (trim (32 ∷ headers_part p)) c
        ≡ record c { signed_headers = some (join p.signed_headers (text ";")) }
  unfolding read_part strip_prefix join text
  read_part-headers c =
      rw
        (
          trim-space (headers_part p),
          trim-IsSolid (headers_part p) (IsName-IsSolid (headers_part p) headers_part-IsToken),
          strip_prefix-append (text "SignedHeaders=") (join p.signed_headers (text ";")),
        )
        refl

  read_part-signature :
      (c : Components)
      → read_part (trim (32 ∷ signature_part p)) c ≡ record c { signature = some p.signature }
  unfolding read_part strip_prefix text
  read_part-signature c =
      rw
        (
          trim-space (signature_part p),
          trim-IsSolid (signature_part p)
              (IsName-IsSolid (signature_part p) signature_part-IsToken),
          strip_prefix-append (text "Signature=") p.signature,
        )
        refl

  abbrev printed_parts : List Text
  printed_parts = credential_part p ∷ (32 ∷ headers_part p) ∷ (32 ∷ signature_part p) ∷ []

  split-printed_parts : split (join printed_parts (text ",")) b',' ≡ printed_parts
  unfolding text
  split-printed_parts = split-join b',' printed_parts (ground arith) (
    Lacks-IsToken (credential_part p) credential_part-IsToken,
    (
      (refl, Lacks-IsToken (headers_part p) headers_part-IsToken),
      ((refl, Lacks-IsToken (signature_part p) signature_part-IsToken), tt),
    ),
  )

  read_parts-printed_parts : read_parts printed_parts no_components ≡ record {
    credential = some (join (p.access_key_id ∷ p.scope) (text "/"));
    signed_headers = some (join p.signed_headers (text ";"));
    signature = some p.signature;
  }
  unfolding read_parts
  read_parts-printed_parts =
      rw (read_parts-cons, read_part-credential no_components)
        (rw (read_part-headers _, read_part-signature _) refl)

  split-credential :
      split (join (p.access_key_id ∷ p.scope) (text "/")) b'/' ≡ p.access_key_id ∷ p.scope
  unfolding text
  split-credential = split-join b'/' (p.access_key_id ∷ p.scope) (ground arith) (
      Lacks-IsName b'/' (p.access_key_id ∷ p.scope) (λ b h. ground arith)
        (w.key_name, w.scope_names))

  split-signed_headers : split (join p.signed_headers (text ";")) b';' ≡ p.signed_headers
  unfolding text
  split-signed_headers =
      split-join b';' p.signed_headers w.some_header
        (Lacks-IsName b';' p.signed_headers (λ b h. ground arith) w.header_names)

  five_parts : (length (p.access_key_id ∷ p.scope) == 5) ≡ true
  five_parts = let four = w.four_parts in ground arith

  -- A header that is printed from a key, four parts of a scope, at least one signed header and a
  -- signature, none of which holds white space, a comma, a slash or a semicolon, is parsed to what
  -- it was printed from, with the scope's parts joined by slashes.
  pub parse_authorization_header-print_authorization :
      parse_authorization_header (print_authorization p) ≡ ok (info_of p)
  unfolding print_authorization
  parse_authorization_header-print_authorization =
      rw
        (
          parse_authorization_header-scheme (join printed_parts (text ",")) absent,
          split-printed_parts,
          read_parts-printed_parts,
        )
        read_components_whole
    where
      absent : strip_prefix (join printed_parts (text ",")) scheme ≡ none
      absent = unfold strip_prefix join text in refl

      read_components_whole :
          read_components record {
            credential = some (join (p.access_key_id ∷ p.scope) (text "/"));
            signed_headers = some (join p.signed_headers (text ";"));
            signature = some p.signature;
          }
          ≡ ok (info_of p)
      read_components_whole =
          unfold read_components read_credential in
          rw (split-credential, split-signed_headers, five_parts) refl
