-- ===== src/Time/Elapsed.antt =====
-- What a test on `t.Sub(u)` says of the instants: saturation never changes the answer.
use chalert.Prelude.{◌≡◌, ℤ, pos, ◌-ℤ◌, ◌+ℤ◌, ◌≤ℤ◌, ◌<ℤ◌, ltb_ℤ, +ℤ_parts, -ℤ_parts, arith}
use chalert.Time.{Time, Duration, max_duration, min_duration, clamp, sub}

-- A duration that an `int64` can hold, the least one left out.
abbrev pub IsInt64 : Duration → Type 0
IsInt64 d = (min_duration <ℤ d) × (d ≤ℤ max_duration)

clamp_lt : (x d : ℤ) → IsInt64 d → ltb_ℤ (clamp x) d ≡ ltb_ℤ x d
unfolding clamp
clamp_lt x d h = ground arith

-- `t.Sub(u) < d` holds exactly when the exact difference is below `d`.
pub sub-lt : (t u : Time) (d : Duration) → IsInt64 d → ltb_ℤ (sub t u) d ≡ ltb_ℤ t (u +ℤ d)
unfolding sub
sub-lt t u d h = ground (arith, clamp_lt (t -ℤ u) d h, +ℤ_parts u d, -ℤ_parts t u)

pub sub_self : (t : Time) → sub t t ≡ pos 0
unfolding sub clamp ◌-ℤ◌
sub_self t = ground arith
