-- ===== src/Rule/Exec/Tests/Outcome.antt =====
-- The same rule: what its evaluations and its runs come to.
use chalert.Prelude.{
  ℕ, ◌≡◌, refl, List, [], ◌∷◌, codes, lookup, insert, sweep, nat_eq, text_Eq, pos, ◌-ℤ◌, ◌≤ℤ◌,
  text_eq, text_lt, arith,
}
use chalert.Time.{sub}
use chalert.Hash.{write}
use chalert.Sort.{sort_by}
use chalert.Rule.Instance.{AlertInstance, new_alerting_rule}
use chalert.Rule.Labels.{build_labels, hash_labels, render_annotations}
use chalert.Rule.Exec.Observe.{row_of}
use chalert.Rule.Exec.Outcome.{count_live, AreFresh, exec_total, exec_within_limit}
use chalert.Rule.Exec.Errors.{Leaves, exec_error}
use chalert.Rule.Exec.Transitions.{IsSince}
use chalert.Rule.Exec.Runs.{Tick, run, reached, firing_if, run_fires}
use chalert.Rule.Exec.{too_many_rows, to_send, exec}
use chalert.Rule.Exec.Tests.{
  rule, api, env_with, at_minute, api_id, alerts_of, first, second, rule-IsKeyed,
}

exec_total_example :
    (out : List (AlertInstance ℕ)) × ((exec
        (env_with (api ∷ []))
        rule
        (at_minute 0)
        (pos 0)
        (at_minute 0)
        (pos 1)).1
      ≡ to_send out)
unfolding exec new_alerting_rule hash_labels build_labels lookup insert text_eq text_lt write
    sort_by sub ◌-ℤ◌ sweep AreFresh
exec_total_example =
    exec_total (env_with (api ∷ [])) rule (at_minute 0) (pos 0) (at_minute 0) (pos 1) (api ∷ [])
      refl (ground arith) (refl, (λ e. ground arith), tt)

exec_within_limit_example : pos (count_live second.0.alerts) ≤ℤ pos 2
unfolding exec new_alerting_rule hash_labels build_labels lookup insert text_eq text_lt write
    sort_by sub ◌-ℤ◌ sweep
exec_within_limit_example =
    exec_within_limit (env_with (api ∷ [])) first.0 (at_minute 5) (pos 2) (at_minute 5) (pos 1)
      (api ∷ []) (alerts_of second.1) refl (ground arith) refl

-- Two rows against a limit of one.
exec_error_example :
    Leaves
      (env_with (api ∷ api ∷ []))
      rule
      (at_minute 0)
      (pos 1)
      (too_many_rows (codes "HighErrorRate") 2 (pos 1))
      (exec (env_with (api ∷ api ∷ [])) rule (at_minute 0) (pos 1) (at_minute 0) (pos 1)).0.alerts
unfolding exec new_alerting_rule hash_labels build_labels lookup insert text_eq text_lt write
    sort_by sub ◌-ℤ◌ sweep
exec_error_example =
    exec_error (env_with (api ∷ api ∷ [])) rule (at_minute 0) (pos 1) (at_minute 0) (pos 1)
      (too_many_rows (codes "HighErrorRate") 2 (pos 1)) rule-IsKeyed refl

abbrev tick : ℕ → Tick ℕ
tick n = record {
  env = env_with (api ∷ []);
  ts = at_minute n;
  limit = pos 2;
  start = at_minute n;
  duration = pos 1;
}

run_fires_example :
    IsSince
      (at_minute 0)
      (firing_if (reached (at_minute 0) (pos 300000000000) (tick 0 ∷ tick 5 ∷ [])))
      (lookup api_id (run (tick 0 ∷ tick 5 ∷ []) rule).alerts)
unfolding exec new_alerting_rule hash_labels build_labels lookup insert text_eq text_lt write
    sort_by sub ◌-ℤ◌ sweep render_annotations row_of
run_fires_example =
    run_fires api_id (tick 0) (tick 5 ∷ []) rule tt (ground arith, ground arith) refl
      (
        record {
          rows = api ∷ [];
          out = alerts_of first.1;
          row = api;
          queried = refl;
          sent = refl;
          found = refl;
        },
        (
          record {
            rows = api ∷ [];
            out = alerts_of second.1;
            row = api;
            queried = refl;
            sent = refl;
            found = refl;
          },
          tt,
        ),
      )
