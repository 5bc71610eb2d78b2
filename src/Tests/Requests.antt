-- ===== src/Tests/Requests.antt =====
-- Requests that are signed, checked and served.
use mathlib.Core.List.Perm
use mathlib.Core.List.{Perm}
use replica_t.Common.{
  List, join, split, lt_int, ◌≤◌, pos, Text, text, text_eq, length, join, split, starts_with,
  is_whitespace, true, some, ◌≡◌, refl, arith,
}
use replica_t.Types.Error.{ok}
use replica_t.Auth.Authorization.{scheme, AuthorizationInfo, parse_authorization_header}
use replica_t.Auth.Authorization.Printed.{
  IsPrintable, info_of, print_authorization, parse_authorization_header-print_authorization,
}
use replica_t.Auth.Authorization.Accepted.{IsParsed, parse_authorization_header-IsParsed}
use replica_t.Auth.Timestamp.{request_time, validate_timestamp, ends_with_z, check_skew}
use replica_t.Auth.Signature.{header_text, date_header, content_hash_header, build_string_to_sign}
use replica_t.Auth.Middleware.Client.{IsSigned}
use replica_t.Tests.Web.{mac, chrono, env, amz_date, content_hash, parts, request_of}

abbrev pub signature : Text
signature = text "t"

abbrev pub info : AuthorizationInfo
info = info_of (parts signature)

pub parts-IsPrintable : IsPrintable (parts signature)
unfolding is_whitespace text
parts-IsPrintable = record {
  key_name = ground arith;
  scope_names = ground arith;
  four_parts = refl;
  header_names = ground arith;
  some_header = ground arith;
  signature_name = ground arith;
}

parse_authorization_header-print_authorization_example :
    parse_authorization_header (print_authorization (parts signature))
    ≡ ok (info_of (parts signature))
parse_authorization_header-print_authorization_example =
    parse_authorization_header-print_authorization (parts signature) parts-IsPrintable

parse_authorization_header-IsParsed_example :
    (starts_with (print_authorization (parts signature)) scheme ≡ true) × IsParsed info
parse_authorization_header-IsParsed_example =
    parse_authorization_header-IsParsed (print_authorization (parts signature)) info
      (parse_authorization_header-print_authorization (parts signature) parts-IsPrintable)

pub in_window : validate_timestamp chrono (pos 7) amz_date ≡ ok tt
unfolding validate_timestamp text request_time ends_with_z check_skew lt_int
in_window = refl

pub dated : (method : Text) → date_header (request_of method signature) ≡ some amz_date
unfolding date_header text text_eq
dated method = refl

pub hashed : (method : Text) → content_hash_header (request_of method signature) ≡ some content_hash
unfolding content_hash_header text text_eq
hashed method = refl

pub long_date : 8 ≤ length amz_date
unfolding text
long_date = omega arith

pub request_of-IsSigned :
    (method : Text) → IsSigned env mac (text "S") (request_of method signature) (parts signature)
unfolding text text_eq header_text build_string_to_sign join
request_of-IsSigned method = record {
  amz_date = amz_date;
  content_hash = content_hash;
  dated = dated method;
  hashed = hashed method;
  long_date = long_date;
  in_window = in_window;
  printed = refl;
  signed = refl;
}
