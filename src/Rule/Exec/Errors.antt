-- ===== src/Rule/Exec/Errors.antt =====
-- What `Exec` of rule/rule.go leaves behind when it returns an error.
use chalert.Prelude.{
  ℕ, ◌≡◌, refl, sym, subst, inl, inr, List, [], length, Option, none, some, Text, ℤ, pos, ◌<ℤ◌,
  sweep, nat_eq, arith, Bool-cases, Option-cases,
}
use chalert.Time.{Time, Duration}
use chalert.Datasource.{Metric}
use chalert.Rule.Instance.{Alerts, AlertingRule}
use chalert.Rule.Exec.{
  Env, ExecError, query_failed, too_many_rows, duplicate_labels, limit_exceeded, failed, duplicate,
  no_value, exceeds, purge_one, observe_rows, num_active, conclude, process_rows, answer, exec,
}
use chalert.Rule.Exec.Invariant.{IsKeyed, answer-IsKeyed, outcome_cases}

module _ {F : Type 0} (env : Env F) (ar : AlertingRule F) (ts : Time) (limit : ℤ) where
  -- What an error says of the alerts before and after.
  abbrev pub Leaves : ExecError → Alerts F → Type 0
  Leaves (query_failed name e) after = after ≡ ar.alerts
  Leaves (too_many_rows name n l) after = (after ≡ ar.alerts) × (pos 0 <ℤ limit) × (limit <ℤ pos n)
  Leaves (duplicate_labels name labels) after = IsKeyed ar.rule_id after
  Leaves (limit_exceeded name l n) after = (after ≡ []) × (pos 0 <ℤ limit) × (limit <ℤ pos n)

  conclude_failed :
      (seen : List ℕ) (alerts : Alerts F) (e : ExecError)
      → (conclude env ar ts limit seen alerts).1 ≡ failed e
      → (n : ℕ) × (e ≡ limit_exceeded ar.name limit n)
        × ((conclude env ar ts limit seen alerts).0 ≡ [])
        × (pos 0 <ℤ limit)
        × (limit <ℤ pos n)
  unfolding conclude
  conclude_failed seen alerts e h =
      let n = num_active env ar ts seen alerts in
      elim (Bool-cases (exceeds n limit)) [
        | inl over ↦ (n, ground arith, ground arith, ground arith, ground arith)
        | inr within ↦ ground arith
      ]

  process_failed :
      (rows : List (Metric F)) (e : ExecError)
      → (process_rows env ar ts limit rows).1 ≡ failed e
      → IsKeyed ar.rule_id (process_rows env ar ts limit rows).0
      → Leaves e (process_rows env ar ts limit rows).0
  unfolding process_rows
  process_failed rows e h k =
      let looped = observe_rows env ar ts rows [] (sweep (λ id a. purge_one ts a) ar.alerts) in
      elim (Option-cases looped.2) [
        | inl ended ↦
            let r = conclude_failed looped.1 looped.0 e (ground arith) in
            subst (λ x. Leaves x (process_rows env ar ts limit rows).0) (sym r.1)
              (rw (ended, process_rows) (r.2, r.3, r.4))
        | inr (duplicate labels, stopped) ↦
            subst (λ x. Leaves x (process_rows env ar ts limit rows).0)
              {x = duplicate_labels ar.name labels} (ground arith) k
        | inr (no_value, stopped) ↦ ground arith
      ]

  answer_failed :
      (rows : List (Metric F)) (o : Option Text) (e : ExecError)
      → (answer env ar ts limit rows o).1 ≡ failed e
      → IsKeyed ar.rule_id (answer env ar ts limit rows o).0
      → Leaves e (answer env ar ts limit rows o).0
  unfolding answer
  answer_failed rows (some m) e h k =
      subst (λ x. Leaves x ar.alerts) {x = query_failed ar.name m} (ground arith) refl
  answer_failed rows none e h k = elim (Bool-cases (exceeds (length rows) limit)) [
    | inl over ↦
        subst (λ x. Leaves x (answer env ar ts limit rows none).0)
          {x = too_many_rows ar.name (length rows) limit} (ground arith)
          (rw (over, answer) (refl, ground arith, ground arith))
    | inr within ↦
        rw (within, answer) (process_failed rows e (ground arith) (rw (within, answer) at k))
  ]

  module _ (start : Time) (duration : Duration) where
    -- When an evaluation returns an error: a failed query leaves the alerts as they were; too many
    -- rows do too, and the limit was positive and below their number; a repeated label set leaves
    -- one instance for each identity; too many active alerts leave none at all, and the limit was
    -- positive and below their number.
    pub exec_error :
        (e : ExecError)
        → IsKeyed ar.rule_id ar.alerts
        → (exec env ar ts limit start duration).1 ≡ failed e
        → Leaves e (exec env ar ts limit start duration).0.alerts
    unfolding exec
    exec_error e k h = elim (outcome_cases (env.query ar.querier ar.expr ts)) [
      | inl (p, q) ↦ ground arith
      | inr (rows, o, q) ↦
          rw (q, exec)
            (answer_failed rows o e (ground arith) (answer-IsKeyed env ar ts limit rows o k))
    ]
