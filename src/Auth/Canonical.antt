-- ===== src/Auth/Canonical.antt =====
-- auth/signature.rs: the canonical form of a request, of which the signature is made.
pub mod Lines
pub mod Query
use replica_t.Common.{
  ℕ, Text, text, text_eq, text_le, split, split_once, join, trim, sort_by, Bool, Option, none, some,
  List, [], ◌∷◌, ◌++◌, map, if◌then◌else◌,
}
use replica_t.Types.Error.{Result, ok}
use replica_t.Http.{Request}

-- A parameter of a query: its name and its value.
abbrev pub Param : Type 0
Param = Text × Text

unfoldable pub read_param : Text → Param
read_param param = elim (split_once param b'=') [ some halves ↦ halves | none ↦ (param, []) ]

-- The order of `sort_by`: not greater by name, and by value where the names are equal.
unfoldable pub param_le : Param → Param → Bool
param_le a b = if text_eq a.0 b.0 then text_le a.1 b.1 else text_le a.0 b.0

unfoldable pub print_param : Param → Text
print_param p = p.0 ++ text "=" ++ p.1

unfoldable pub canonicalize_query_string : Text → Text
unfolding read_param print_param
canonicalize_query_string [] = []
canonicalize_query_string (b ∷ query) =
    join (map print_param (sort_by param_le (map read_param (split (b ∷ query) b'&')))) (text "&")

-- One turn of the loop of `build_canonical_headers`; a value that is not text, and a header that
-- is missing, add nothing.
unfoldable pub canonical_header : Request → Text → Text
canonical_header request name = elim (request.header name) [
  | none ↦ []
  | some value ↦ elim value.to_str [
    | none ↦ []
    | some value_str ↦ name ++ text ":" ++ trim value_str ++ text "\n"
  ]
]

unfoldable pub build_canonical_headers : Request → List Text → Text
unfolding canonical_header
build_canonical_headers request [] = []
build_canonical_headers request (name ∷ names) =
    canonical_header request name ++ build_canonical_headers request names

-- `request.uri().query().unwrap_or("")`
abbrev pub raw_query : Request → Text
raw_query request = elim request.query [ none ↦ [] | some query ↦ query ]

-- The six lines of `format!`.
unfoldable pub canonical_text : Request → List Text → Text → Text
canonical_text request signed_headers content_hash =
    request.method
    ++ (b'\n' ∷ request.path
        ++ (b'\n' ∷ canonicalize_query_string (raw_query request)
            ++ (b'\n' ∷ build_canonical_headers request signed_headers
                ++ (b'\n' ∷ join signed_headers (text ";") ++ (b'\n' ∷ content_hash)))))

unfoldable pub build_canonical_request : Request → List Text → Text → Result Text
unfolding canonical_text
build_canonical_request request signed_headers content_hash =
    ok (canonical_text request signed_headers content_hash)
