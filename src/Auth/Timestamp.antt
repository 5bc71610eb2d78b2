-- ===== src/Auth/Timestamp.antt =====
-- auth/signature.rs: `validate_timestamp`, the window of fifteen minutes around the clock.
use replica_t.Common.{
  ℕ, ℤ, pos, negsuc, lt_int, magnitude, ◌*◌, ◌-◌, ◌≤◌, Text, text, take, length, ◌==◌, Bool, false,
  ◌&&◌, ◌||◌, [], ◌∷◌, ◌++◌, ◌≡◌, ◌≢◌, ◌↔◌, arith, if◌then◌else◌, Bool-cases, inl, inr,
}
use replica_t.Chrono.{Chrono}
use replica_t.Types.Error.{
  Result, ok, err, panic, map_err, invalid_request, ◌>>=◌, bind-ne-panic, bind-eq-ok,
  map_err-ne-panic,
}
use replica_t.Types.Models.{DateTime}

-- `ends_with('Z')`
unfoldable pub ends_with_z : Text → Bool
ends_with_z [] = false
ends_with_z (b ∷ []) = b == b'Z'
ends_with_z (b ∷ c ∷ s) = ends_with_z (c ∷ s)

-- `Duration::minutes(n)`, in nanoseconds.
abbrev pub minutes : ℕ → ℕ
minutes n = n * 60 * 1000000000

unfoldable pub request_time : Chrono → Text → Result DateTime
request_time c date_str =
    if ends_with_z date_str && length date_str == 16
    then map_err (λ e. invalid_request (text "Invalid x-amz-date format: " ++ e))
        (c.parse_from_str (take 15 date_str))
    else map_err (λ e. invalid_request (text "Invalid date format: " ++ e))
        (c.parse_from_rfc2822 date_str)

unfoldable pub check_skew : ℤ → Result (Unit {0})
check_skew diff =
    if lt_int (pos (minutes 15)) diff || lt_int diff (negsuc (minutes 15 - 1))
    then err (invalid_request (text "Request timestamp too skewed"))
    else ok tt

unfoldable pub validate_timestamp : Chrono → DateTime → Text → Result (Unit {0})
validate_timestamp c now date_str =
    request_time c date_str >>= λ t. check_skew (c.signed_duration_since now t)

check_skew_iff : (diff : ℤ) → (check_skew diff ≡ ok tt) ↔ (magnitude diff ≤ minutes 15)
unfolding check_skew lt_int
check_skew_iff (pos n) = ground arith
check_skew_iff (negsuc n) = ground arith

pub request_time-ne-panic : (c : Chrono) (date_str : Text) → request_time c date_str ≢ panic
unfolding request_time
request_time-ne-panic c date_str =
    elim (Bool-cases (ends_with_z date_str && length date_str == 16)) [
      | inl e ↦ rw e (map_err-ne-panic _ (c.parse_from_str (take 15 date_str)))
      | inr e ↦ rw e (map_err-ne-panic _ (c.parse_from_rfc2822 date_str))
    ]

check_skew-ne-panic : (diff : ℤ) → check_skew diff ≢ panic
unfolding check_skew
check_skew-ne-panic diff = ground arith

pub validate_timestamp-ne-panic :
    (c : Chrono) (now : DateTime) (date_str : Text) → validate_timestamp c now date_str ≢ panic
unfolding validate_timestamp
validate_timestamp-ne-panic c now date_str =
    bind-ne-panic (request_time c date_str) (λ t. check_skew (c.signed_duration_since now t))
      (request_time-ne-panic c date_str) (λ t. check_skew-ne-panic (c.signed_duration_since now t))

-- A timestamp is accepted exactly if it is a time, in the first format where it has sixteen bytes
-- and ends in `Z` and in the second one otherwise, that is at most fifteen minutes from the clock.
validate_timestamp_iff :
    (c : Chrono) (now : DateTime) (date_str : Text)
    → (validate_timestamp c now date_str ≡ ok tt) ↔ (
        (t : DateTime) × (request_time c date_str ≡ ok t)
        × (magnitude (c.signed_duration_since now t) ≤ minutes 15))
unfolding validate_timestamp
validate_timestamp_iff c now date_str = (
  λ h.
      let (t, e, k) =
        bind-eq-ok (request_time c date_str) (λ t. check_skew (c.signed_duration_since now t)) h in
      (t, e, (check_skew_iff (c.signed_duration_since now t)).0 k),
  λ (t, e, k). rw (validate_timestamp, e) ((check_skew_iff (c.signed_duration_since now t)).1 k),
)
