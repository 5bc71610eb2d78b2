-- ===== src/Auth/Canonical/Lines.antt =====
-- What the canonical request of auth/signature.rs says of the request.
use mathlib.Core.List.{append_cancel_right}
use replica_t.Common.{
  ℕ, Text, Lacks, List, [], ◌∷◌, ◌++◌, ◌≡◌, ◌≢◌, refl, sym, ◌∙◌, arith, ==_refl, append_assoc,
}
use replica_t.Http.{Request}
use replica_t.Auth.Canonical.{
  canonical_text, canonicalize_query_string, build_canonical_headers, raw_query,
}

-- A text is not cut twice at its first separator.
cut_first :
    (sep : ℕ) (a b s t : Text)
    → Lacks sep a
    → Lacks sep b
    → a ++ (sep ∷ s) ≡ b ++ (sep ∷ t)
    → (a ≡ b) × (s ≡ t)
cut_first sep [] [] s t ha hb e = (refl, ground (arith, e))
cut_first sep [] (y ∷ b) s t ha hb e = absurd (ground (arith, e, hb.0, ==_refl sep))
cut_first sep (x ∷ a) [] s t ha hb e = absurd (ground (arith, e, ha.0, ==_refl sep))
cut_first sep (x ∷ a) (y ∷ b) s t ha hb e =
    let heads : x ≡ y = ground (arith, e) in
    let tails : a ++ (sep ∷ s) ≡ b ++ (sep ∷ t) = ground (arith, e) in
    let rest = cut_first sep a b s t ha.1 hb.1 tails in (cc (heads, rest.0), rest.1)

Lacks-middle : (sep : ℕ) (a s t : Text) → Lacks sep t → a ++ (sep ∷ s) ≢ t
Lacks-middle sep [] s [] h e = ground (arith, e)
Lacks-middle sep [] s (y ∷ t) h e = ground (arith, e, h.0, ==_refl sep)
Lacks-middle sep (x ∷ a) s [] h e = ground (arith, e)
Lacks-middle sep (x ∷ a) s (y ∷ t) h e =
    let tails : a ++ (sep ∷ s) ≡ t = ground (arith, e) in Lacks-middle sep a s t h.1 tails

-- Nor at its last separator.
cut_last :
    (sep : ℕ) (a b s t : Text)
    → Lacks sep s
    → Lacks sep t
    → a ++ (sep ∷ s) ≡ b ++ (sep ∷ t)
    → (a ≡ b) × (s ≡ t)
cut_last sep [] [] s t hs ht e = (refl, ground (arith, e))
cut_last sep [] (y ∷ b) s t hs ht e =
    let tails : b ++ (sep ∷ t) ≡ s = ground (arith, e) in absurd (Lacks-middle sep b t s hs tails)
cut_last sep (x ∷ a) [] s t hs ht e =
    let tails : a ++ (sep ∷ s) ≡ t = ground (arith, e) in absurd (Lacks-middle sep a s t ht tails)
cut_last sep (x ∷ a) (y ∷ b) s t hs ht e =
    let heads : x ≡ y = ground (arith, e) in
    let tails : a ++ (sep ∷ s) ≡ b ++ (sep ∷ t) = ground (arith, e) in
    let rest = cut_last sep a b s t hs ht tails in (cc (heads, rest.0), rest.1)

-- The parts of a request, and the hash of its content, that take one line each.
pub record IsOfLines (request : Request) (content_hash : Text) : Type 0 where
  pub method_line : Lacks b'\n' request.method
  pub path_line : Lacks b'\n' request.path
  pub query_line : Lacks b'\n' (canonicalize_query_string (raw_query request))
  pub hash_line : Lacks b'\n' content_hash

-- Requests that a signature does not tell apart: the method, the path, the canonical query, the
-- block of signed headers and the hash of the content are the same.
pub record IsSameSigned (r s : Request) (signed_headers : List Text) (g h : Text) : Type 0 where
  pub same_method : r.method ≡ s.method
  pub same_path : r.path ≡ s.path
  pub same_query : canonicalize_query_string (raw_query r) ≡ canonicalize_query_string (raw_query s)
  pub same_headers :
      build_canonical_headers r signed_headers ≡ build_canonical_headers s signed_headers
  pub same_hash : g ≡ h

cut_tail :
    (x y m g h : Text)
    → Lacks b'\n' g
    → Lacks b'\n' h
    → x ++ (b'\n' ∷ m ++ (b'\n' ∷ g)) ≡ y ++ (b'\n' ∷ m ++ (b'\n' ∷ h))
    → (x ≡ y) × (g ≡ h)
cut_tail x y m g h hg hh e =
    let grouped : (x ++ (b'\n' ∷ m)) ++ (b'\n' ∷ g) ≡ (y ++ (b'\n' ∷ m)) ++ (b'\n' ∷ h) =
      append_assoc x (b'\n' ∷ m) (b'\n' ∷ g) ∙ e ∙ sym (append_assoc y (b'\n' ∷ m) (b'\n' ∷ h)) in
    let (fronts, hashes) = cut_last b'\n' (x ++ (b'\n' ∷ m)) (y ++ (b'\n' ∷ m)) g h hg hh grouped in
    (append_cancel_right x y (b'\n' ∷ m) fronts, hashes)

-- The canonical request determines the parts it is made of.
pub canonical_text_injective :
    (r s : Request) (signed_headers : List Text) (g h : Text)
    → IsOfLines r g
    → IsOfLines s h
    → canonical_text r signed_headers g ≡ canonical_text s signed_headers h
    → IsSameSigned r s signed_headers g h
unfolding canonical_text
canonical_text_injective r s signed_headers g h lr ls e =
    let (same_method, e') = cut_first b'\n' _ _ _ _ lr.method_line ls.method_line e in
    let (same_path, e'') = cut_first b'\n' _ _ _ _ lr.path_line ls.path_line e' in
    let (same_query, e''') = cut_first b'\n' _ _ _ _ lr.query_line ls.query_line e'' in
    let (same_headers, same_hash) = cut_tail _ _ _ _ _ lr.hash_line ls.hash_line e''' in
    record {
      same_method = same_method;
      same_path = same_path;
      same_query = same_query;
      same_headers = same_headers;
      same_hash = same_hash;
    }
