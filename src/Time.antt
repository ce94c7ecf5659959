-- ===== src/Time.antt =====
-- Package `time` as the rule engine uses it: an instant is the signed count of nanoseconds since
-- Go's zero time, and a duration is an `int64` of nanoseconds. Monotonic clock readings, time zones
-- and the calendar are not modelled.
pub mod Elapsed
use chalert.Prelude.{ℕ, ◌-◌, ◌^◌, Bool, ℤ, pos, negsuc, ◌+ℤ◌, ◌-ℤ◌, ltb_ℤ, eqb_ℤ, if◌then◌else◌}

abbrev pub Time : Type 0
Time = ℤ

abbrev pub Duration : Type 0
Duration = ℤ

-- `time.Time{}`.
abbrev pub zero_time : Time
zero_time = pos 0

abbrev pub is_zero : Time → Bool
is_zero t = eqb_ℤ t zero_time

abbrev pub after : Time → Time → Bool
after t u = ltb_ℤ u t

abbrev pub add : Time → Duration → Time
add t d = t +ℤ d

abbrev pub max_duration : Duration
max_duration = pos (2 ^ 63 - 1)

abbrev pub min_duration : Duration
min_duration = negsuc (2 ^ 63 - 1)

-- `t.Sub(u)` saturates at the two ends of `int64`.
pub clamp : ℤ → Duration
clamp d =
    if ltb_ℤ max_duration d then max_duration else if ltb_ℤ d min_duration then min_duration else d

unfoldable pub sub : Time → Time → Duration
unfolding clamp
sub t u = clamp (t -ℤ u)

abbrev pub minute : Duration
minute = pos 60000000000
