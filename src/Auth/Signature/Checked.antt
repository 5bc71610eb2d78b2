-- ===== src/Auth/Signature/Checked.antt =====
-- How `verify_signature` of auth/signature.rs ends.
use replica_t.Common.{
  ℤ, pos, negsuc, lt_int, ◌-◌, ◌||◌, ◌++◌, ◌≤◌, Text, text, text_eq, length, take, ◌&&◌, ◌==◌,
  Bool-cases, Option-cases, inl, inr, ◌≡◌, ◌⊎◌, refl, arith,
}
use replica_t.Chrono.{Chrono}
use replica_t.Types.Error.{
  S3Error, status_code, Result, ok, err, Tried, returned, failed, map_err, invalid_request,
  signature_does_not_match, bind-eq-ok,
}
use replica_t.Types.Models.{DateTime, Credentials}
use replica_t.Http.{Request, Env}
use replica_t.Auth.Authorization.{AuthorizationInfo}
use replica_t.Auth.Authorization.Accepted.{IsChecked, bind-IsChecked}
use replica_t.Auth.Timestamp.{request_time, minutes, check_skew, validate_timestamp, ends_with_z}
use replica_t.Auth.Signature.{
  date_header, content_hash_header, verify_signature, compare_signatures,
}
use replica_t.Auth.Signature.Verified.{Mac, IsMac, verify_signature-sign}

-- Refused with the fault on the client's side: 400 Bad Request or 403 Forbidden.
abbrev pub IsRefusal : S3Error → Type 0
IsRefusal e = (status_code e ≡ 400) ⊎ (status_code e ≡ 403)

-- A check that returns a value or refuses.
abbrev pub IsCheck {ℓ} : {A : Type ℓ} → Result A → Type ℓ
IsCheck {A = A} r = ((a : A) × (r ≡ ok a)) ⊎ ((e : S3Error) × IsRefusal e × (r ≡ err e))

-- A time of RFC 2822 has at least eight bytes: it holds a day, a month, a year and an hour.
abbrev pub IsLongDate : Chrono → Type 0
IsLongDate c = (s : Text) (t : DateTime) → c.parse_from_rfc2822 s ≡ returned t → 8 ≤ length s

pub IsCheck-IsChecked {ℓ} : {A : Type ℓ} (r : Result A) → IsChecked r → IsCheck r
unfolding status_code
IsCheck-IsChecked r (inl (a, e)) = inl (a, e)
IsCheck-IsChecked r (inr (msg, e)) = inr (invalid_request msg, inl refl, e)

map_err-IsChecked {ℓ} :
    {A : Type ℓ} (f : Text → Text) (r : Tried A)
    → IsChecked (map_err (λ e. invalid_request (f e)) r)
map_err-IsChecked f (returned a) = inl (a, refl)
map_err-IsChecked f (failed e) = inr (f e, refl)

map_err-eq-ok {ℓ} :
    {A : Type ℓ} (f : Text → S3Error) (r : Tried A) (a : A) → map_err f r ≡ ok a → r ≡ returned a
map_err-eq-ok f (returned b) a h = ground (arith, h)
map_err-eq-ok f (failed e) a h = absurd (ground (arith, h))

request_time-IsChecked : (c : Chrono) (s : Text) → IsChecked (request_time c s)
unfolding request_time
request_time-IsChecked c s = elim (Bool-cases (ends_with_z s && length s == 16)) [
  | inl e ↦ rw e (map_err-IsChecked _ (c.parse_from_str (take 15 s)))
  | inr e ↦ rw e (map_err-IsChecked _ (c.parse_from_rfc2822 s))
]

check_skew-IsChecked : (diff : ℤ) → IsChecked (check_skew diff)
unfolding check_skew
check_skew-IsChecked diff =
    elim (Bool-cases (lt_int (pos (minutes 15)) diff || lt_int diff (negsuc (minutes 15 - 1)))) [
      | inl e ↦ rw e (inr (_, refl))
      | inr e ↦ rw e (inl (tt, refl))
    ]

validate_timestamp-IsChecked :
    (c : Chrono) (now : DateTime) (s : Text) → IsChecked (validate_timestamp c now s)
unfolding validate_timestamp check_skew
validate_timestamp-IsChecked c now s =
    bind-IsChecked (request_time c s) (λ t. check_skew (c.signed_duration_since now t))
      (request_time-IsChecked c s) λ t. check_skew-IsChecked (c.signed_duration_since now t)

request_time_long :
    (c : Chrono) → IsLongDate c → (s : Text) (t : DateTime) → request_time c s ≡ ok t → 8 ≤ length s
unfolding request_time
request_time_long c dates s t h = elim (Bool-cases (ends_with_z s && length s == 16)) [
  | inl e ↦ ground (arith, e)
  | inr e ↦
      let parsed : map_err (λ m. invalid_request (text "Invalid date format: " ++ m))
            (c.parse_from_rfc2822 s)
          ≡ ok t =
        ground (arith, e, h) in
      dates s t (map_err-eq-ok _ (c.parse_from_rfc2822 s) t parsed)
]

compare_signatures-IsCheck :
    (calculated given : Text) → IsCheck (compare_signatures calculated given)
unfolding compare_signatures status_code
compare_signatures-IsCheck calculated given = elim (Bool-cases (text_eq calculated given)) [
  | inl e ↦ rw e (inl (tt, refl))
  | inr e ↦ rw e (inr (signature_does_not_match, inr refl, refl))
]

module _ (env : Env) (mac : Mac) (total : IsMac env.crypto mac) (dates : IsLongDate env.chrono)
    (request : Request) (info : AuthorizationInfo) (credentials : Credentials) where
  -- Every request is accepted or refused with status 400 or 403: with a keyed digest that takes
  -- every key and times of at least eight bytes, verification does not panic.
  pub verify_signature-IsCheck :
      IsCheck (verify_signature env.crypto env.chrono env.now request info credentials)
  unfolding verify_signature status_code compare_signatures
  verify_signature-IsCheck = elim (Option-cases (date_header request)) [
    | inl no_date ↦ rw no_date (inr (invalid_request _, inl refl, refl))
    | inr (amz_date, d) ↦ elim (Option-cases (content_hash_header request)) [
      | inl no_hash ↦ rw (d, no_hash) (inr (invalid_request _, inl refl, refl))
      | inr (content_hash, h) ↦ elim (validate_timestamp-IsChecked env.chrono env.now amz_date) [
        | inl (u, v) ↦
            let (t, at, skew) =
              bind-eq-ok (request_time env.chrono amz_date)
                (λ t. check_skew (env.chrono.signed_duration_since env.now t))
                (unfold validate_timestamp in v) in
            let long = request_time_long env.chrono dates amz_date t at in
            rw
              (verify_signature-sign env.crypto mac total env.chrono env.now request info
                credentials amz_date content_hash d h long v)
              (compare_signatures-IsCheck _ info.signature)
        | inr (msg, v) ↦ rw (d, h, v) (inr (invalid_request msg, inl refl, refl))
      ]
    ]
  ]
