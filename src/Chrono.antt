-- ===== src/Chrono.antt =====
-- The calls of the chrono crate, as one parameter; the clock's reading is an argument where it is
-- read.
use replica_t.Common.{ℤ, Text, Option}
use replica_t.Types.Error.{Tried}
use replica_t.Types.Models.{DateTime}

pub record Chrono : Type 0 where
  -- `NaiveDateTime::parse_from_str` with "%Y%m%dT%H%M%S", then `and_utc`
  pub parse_from_str : Text → Tried DateTime
  -- `DateTime::parse_from_rfc2822`, then `with_timezone(&Utc)`
  pub parse_from_rfc2822 : Text → Tried DateTime
  -- `signed_duration_since`, in nanoseconds
  pub signed_duration_since : DateTime → DateTime → ℤ
  -- `DateTime::from_timestamp`, of whole seconds
  pub from_timestamp : ℤ → Option DateTime
  pub to_rfc2822 : DateTime → Text
  pub to_rfc3339 : DateTime → Text
