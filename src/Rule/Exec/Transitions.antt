-- ===== src/Rule/Exec/Transitions.antt =====
-- When a pending instance of rule/rule.go fires and a firing one resolves, in exact time.
use chalert.Prelude.{ℕ, ◌≡◌, Option, none, some, nat_eq, ◌+ℤ◌, ltb_ℤ, arith, if◌then◌else◌}
use chalert.Time.{Time}
use chalert.Time.Elapsed.{IsInt64, sub-lt}
use chalert.Datasource.{Metric}
use chalert.Rule.Instance.{AlertState, pending, firing, AlertInstance, AlertingRule}
use chalert.Rule.Exec.{
  Env, purge_one, observe_one, reactivate, settle_one, promote_one, stamp_one, is_due,
}
use chalert.Rule.Exec.Machine.{instance_step}

-- In state `s`, and matched since `t`.
abbrev pub IsSince : {F : Type 0} → Time → AlertState → Option (AlertInstance F) → Type 0
IsSince t s none = ⊥
IsSince t s (some a) = (a.state ≡ s) × (a.active_at ≡ t)

module _ {F : Type 0} (env : Env F) (ar : AlertingRule F) (ts : Time) where
  abbrev pub fired_by : Time → AlertState
  fired_by t = if ltb_ℤ ts (t +ℤ ar.for_dur) then pending else firing

  pub step_new :
      (id : ℕ) (m : Metric F)
      → IsInt64 ar.for_dur
      → IsSince ts (fired_by ts) (instance_step env ar ts id (some m) none)
  unfolding observe_one settle_one promote_one stamp_one is_due
  step_new id m w = ground (arith, sub-lt ts ts ar.for_dur w)

  pub step_pending :
      (id : ℕ) (m : Metric F) (a : AlertInstance F)
      → IsInt64 ar.for_dur
      → a.state ≡ pending
      → IsSince a.active_at (fired_by a.active_at) (instance_step env ar ts id (some m) (some a))
  unfolding purge_one observe_one reactivate settle_one promote_one stamp_one is_due
  step_pending id m a w e = ground (arith, sub-lt ts a.active_at ar.for_dur w)

  pub step_firing :
      (id : ℕ) (m : Metric F) (a : AlertInstance F)
      → a.state ≡ firing
      → IsSince a.active_at firing (instance_step env ar ts id (some m) (some a))
  unfolding purge_one observe_one reactivate settle_one promote_one stamp_one is_due
  step_firing id m a e = ground arith
