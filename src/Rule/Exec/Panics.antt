-- ===== src/Rule/Exec/Panics.antt =====
-- When `Exec` of rule/rule.go panics: only with its querier, or at a row without a value.
use chalert.Prelude.{
  ℕ, ◌≡◌, ◌≢◌, refl, inl, inr, Bool-cases, List, [], ◌∷◌, length, All, Option, none, some, Text,
  sweep, nat_eq, ℤ, arith,
}
use chalert.Time.{Time, Duration}
use chalert.Datasource.{Metric}
use chalert.Rule.Instance.{AlertingRule, Alerts}
use chalert.Rule.Exec.{
  Env, returned, Stop, duplicate, no_value, stop_result, ExecResult, panicked, observe_rows,
  conclude, process_rows, answer, exec, exceeds, purge_one, num_active,
}
use chalert.Rule.Exec.Observe.{HasValue, observe_cases}

module _ {F : Type 0} (env : Env F) (ar : AlertingRule F) (ts : Time) where
  observe_rows_stops :
      (ms : List (Metric F)) (seen : List ℕ) (alerts : Alerts F)
      → All HasValue ms
      → (observe_rows env ar ts ms seen alerts).2 ≢ some no_value
  unfolding observe_rows
  observe_rows_stops [] seen alerts h = ground arith
  observe_rows_stops (m ∷ ms) seen alerts h =
      observe_cases env ar ts (λ t. t.2 ≢ some no_value) m ms seen alerts m.values refl
        (λ e. ground arith) (λ e. absurd (h.0 e)) (λ v fresh has. observe_rows_stops ms _ _ h.1)

  conclude_returns :
      (limit : ℤ) (seen : List ℕ) (alerts : Alerts F) (p : Text)
      → (conclude env ar ts limit seen alerts).1 ≢ panicked p
  unfolding conclude
  conclude_returns limit seen alerts p =
      elim (Bool-cases (exceeds (num_active env ar ts seen alerts) limit)) [
        | inl e ↦ rw (e, conclude) (λ q. cc)
        | inr e ↦ rw (e, conclude) (λ q. cc)
      ]

  finish_returns :
      (limit : ℤ) (t : Alerts F × List ℕ × Option Stop) (p : Text)
      → t.2 ≢ some no_value
      → let r : Alerts F × ExecResult F = elim t.2 [
        | some s ↦ (t.0, stop_result ar.name s)
        | none ↦ conclude env ar ts limit t.1 t.0
      ] in
        r.1 ≢ panicked p
  finish_returns limit (alerts, seen, none) p h = conclude_returns limit seen alerts p
  finish_returns limit (alerts, seen, some (duplicate labels)) p h = λ q. cc
  finish_returns limit (alerts, seen, some no_value) p h = absurd (h refl)

  answer_returns :
      (limit : ℤ) (ms : List (Metric F)) (e : Option Text) (p : Text)
      → All HasValue ms
      → (answer env ar ts limit ms e).1 ≢ panicked p
  unfolding answer process_rows
  answer_returns limit ms (some e) p h = λ q. cc
  answer_returns limit ms none p h = elim (Bool-cases (exceeds (length ms) limit)) [
    | inl e ↦ rw (e, answer) (λ q. cc)
    | inr e ↦
        rw (e, answer)
          (finish_returns limit
            (observe_rows env ar ts ms [] (sweep (λ id a. purge_one ts a) ar.alerts)) p
            (observe_rows_stops ms [] (sweep (λ id a. purge_one ts a) ar.alerts) h))
  ]

  pub exec_returns :
      (limit : ℤ) (start : Time) (duration : Duration) (ms : List (Metric F)) (e : Option Text)
      (p : Text)
      → env.query ar.querier ar.expr ts ≡ returned ms e
      → All HasValue ms
      → (exec env ar ts limit start duration).1 ≢ panicked p
  unfolding exec
  exec_returns limit start duration ms e p q h = rw (q, exec) (answer_returns limit ms e p h)
