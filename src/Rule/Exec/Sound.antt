-- ===== src/Rule/Exec/Sound.antt =====
-- The rule after an evaluation (rule/rule.go): it stays the same rule, and its alerts stay its own.
use chalert.Prelude.{◌≡◌, refl, sym, subst, inl, inr, ℤ}
use chalert.Time.{Time, Duration}
use chalert.Rule.Instance.{AlertingRule}
use chalert.Rule.Exec.{Env, exec}
use chalert.Rule.Exec.Invariant.{IsKeyed, exec-IsKeyed, outcome_cases}

module _ {F : Type 0} where
  -- The rule's alerts are filed under their identities and belong to the rule.
  abbrev pub IsSound : AlertingRule F → Type 0
  IsSound r = IsKeyed r.rule_id r.alerts

  module _ (env : Env F) where
    exec-rule_id :
        (ar : AlertingRule F) (ts : Time) (limit : ℤ) (start : Time) (duration : Duration)
        → (exec env ar ts limit start duration).0.rule_id ≡ ar.rule_id
    unfolding exec
    exec-rule_id ar ts limit start duration =
        elim (outcome_cases (env.query ar.querier ar.expr ts)) [
          | inl (p, e) ↦ rw (e, exec) refl
          | inr (rows, o, e) ↦ rw (e, exec) refl
        ]

    pub exec-IsSound :
        (ar : AlertingRule F) (ts : Time) (limit : ℤ) (start : Time) (duration : Duration)
        → IsSound ar
        → IsSound (exec env ar ts limit start duration).0
    exec-IsSound ar ts limit start duration k =
        subst (λ id. IsKeyed id (exec env ar ts limit start duration).0.alerts)
          (sym (exec-rule_id ar ts limit start duration))
          (exec-IsKeyed env ar ts limit start duration k)
