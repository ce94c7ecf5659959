-- ===== src/Rule/Exec/Tests.antt =====
-- One rule at work: tests of the definitions, and the theorems about `Exec` at its evaluations.
mod Outcome
mod Resending
use chalert.Prelude.{
  In, ℕ, ◌+◌, ◌*◌, ◌≡◌, ◌↔◌, refl, true, List, [], ◌∷◌, Option, none, some, codes, lookup, insert,
  sweep, nat_eq, text_Eq, IsDistinct, pos, ◌-ℤ◌, ◌≤ℤ◌, text_eq, text_lt, arith,
}
use chalert.Time.{Time, zero_time, minute, sub}
use chalert.Hash.{write}
use chalert.Sort.{sort_by}
use chalert.Datasource.{Metric}
use chalert.Config
use chalert.Rule.Instance.{
  AlertState, inactive, pending, firing, AlertInstance, AlertingRule, new_alerting_rule,
}
use chalert.Rule.Labels.{build_labels, hash_labels, render_annotations}
use chalert.Rule.Exec.Machine.{instance_step, settled_step, state_of, next_state}
use chalert.Rule.Exec.Observe.{row_of, is_some_row}
use chalert.Rule.Exec.Refines.{exec_refines, exec-next_state}
use chalert.Rule.Exec.Send.{sent_copy, exec_sends}
use chalert.Rule.Exec.Invariant.{IsKeyed, exec-IsKeyed}
use chalert.Rule.Exec.Outcome.{count_live, AreFresh, exec_total, exec_within_limit}
use chalert.Rule.Exec.Errors.{Leaves, exec_error}
use chalert.Rule.Exec.Transitions.{IsSince}
use chalert.Rule.Exec.Runs.{Tick, run, reached, firing_if, run_fires}
use chalert.Rule.Exec.{
  Env, is_due, too_many_rows, returned, ExecResult, to_send, failed, panicked, exec,
}

-- "error rate of `api`", once a minute, five minutes of `for`, three of `keep_firing_for`.
abbrev config_rule : Config.Rule
config_rule = record {
  alert = codes "HighErrorRate";
  expr = codes "SELECT service, value FROM t";
  for_dur = pos 300000000000;
  labels = (codes "severity", codes "page") ∷ [];
  annotations = [];
  keep_firing_for = pos 180000000000;
  record_name = [];
  debug = none;
  id = 7;
}

abbrev rule : AlertingRule ℕ
rule = new_alerting_rule (codes "http") (pos 60000000000) config_rule

abbrev api : Metric ℕ
api = record {
  labels = record { name = codes "service"; value = codes "api" } ∷ [];
  timestamps = [];
  values = 5 ∷ [];
}

abbrev env_with : List (Metric ℕ) → Env ℕ
env_with rows = record {
  query = λ q e t. returned rows none;
  templates = λ k t d. none;
  float_zero = 0;
  resend_delay = minute;
}

-- `n` minutes after a first instant.
abbrev at_minute : ℕ → Time
at_minute n = pos (1000000000000 + n * 60000000000)

abbrev api_id : ℕ
api_id = hash_labels (build_labels rule.name rule.labels api.labels)

abbrev alerts_of : ExecResult ℕ → List (AlertInstance ℕ)
alerts_of (to_send out) = out
alerts_of (failed e) = []
alerts_of (panicked p) = []

abbrev eval : List (Metric ℕ) → ℕ → AlertingRule ℕ → AlertingRule ℕ × ExecResult ℕ
eval rows n ar = exec (env_with rows) ar (at_minute n) (pos 2) (at_minute n) (pos 1)

-- The rule after `api` matched at minutes 0 and 5, and then no more at 6, 7 and 9.
abbrev first : AlertingRule ℕ × ExecResult ℕ
first = eval (api ∷ []) 0 rule

abbrev second : AlertingRule ℕ × ExecResult ℕ
second = eval (api ∷ []) 5 first.0

abbrev lost : AlertingRule ℕ × ExecResult ℕ
lost = eval [] 6 second.0

abbrev resolved : AlertingRule ℕ × ExecResult ℕ
resolved = eval [] 9 lost.0

abbrev state_in : AlertingRule ℕ → Option AlertState
state_in ar = elim (lookup api_id ar.alerts) [ none ↦ none | some a ↦ some a.state ]

life_of_an_alert :
    (state_in first.0 ≡ some pending)
    × (state_in second.0 ≡ some firing)
    × (state_in lost.0 ≡ some firing)
    × (state_in resolved.0 ≡ some inactive)
unfolding exec new_alerting_rule hash_labels build_labels lookup insert text_eq text_lt write
    sort_by sub ◌-ℤ◌ sweep
life_of_an_alert = (refl, refl, refl, refl)

rule-IsKeyed : IsKeyed 7 rule.alerts
unfolding new_alerting_rule lookup
rule-IsKeyed = record { distinct = tt; keyed = λ id a h. ground arith }

-- At minute 5 the rule holds the pending instance, and `for` has elapsed.
exec_refines_example :
    IsDistinct second.0.alerts
    × ((id : ℕ)
        → lookup id second.0.alerts
          ≡ instance_step
              (env_with (api ∷ []))
              first.0
              (at_minute 5)
              id
              (row_of first.0 id (api ∷ []))
              (lookup id first.0.alerts))
unfolding exec new_alerting_rule hash_labels build_labels lookup insert text_eq text_lt write
    sort_by sub ◌-ℤ◌ sweep
exec_refines_example =
    exec_refines (env_with (api ∷ [])) first.0 (at_minute 5) (pos 2) (at_minute 5) (pos 1)
      (api ∷ []) (alerts_of second.1) (refl, tt) refl refl

exec-next_state_example :
    state_of (env_with []) lost.0 (at_minute 9) (lookup api_id resolved.0.alerts)
    ≡ next_state
        (env_with [])
        lost.0
        (at_minute 9)
        (is_some_row (row_of lost.0 api_id []))
        (lookup api_id lost.0.alerts)
unfolding exec new_alerting_rule hash_labels build_labels lookup insert text_eq text_lt write
    sort_by sub ◌-ℤ◌ sweep
exec-next_state_example =
    exec-next_state (env_with []) lost.0 (at_minute 9) (pos 2) (at_minute 9) (pos 1) []
      (alerts_of resolved.1) api_id (refl, tt) refl refl

abbrev sent_api : AlertInstance ℕ
sent_api = record {
  id = api_id;
  rule_id = 7;
  group_name = codes "http";
  alert_name = codes "HighErrorRate";
  labels = build_labels rule.name rule.labels api.labels;
  annotations = [];
  state = firing;
  value = 5;
  expr = config_rule.expr;
  active_at = at_minute 0;
  fired_at = at_minute 5;
  resolved_at = zero_time;
  last_sent = at_minute 5;
  keep_firing_since = zero_time;
  for_dur = pos 300000000000;
  evaluation_interval = minute;
}

sent_at_minute_5 : alerts_of second.1 ≡ sent_api ∷ []
unfolding exec new_alerting_rule hash_labels build_labels lookup insert text_eq text_lt write
    sort_by sub ◌-ℤ◌ sweep render_annotations
sent_at_minute_5 = refl

-- The firing instance is sent at minute 5.
exec_sends_example : In sent_api (alerts_of second.1) ↔ (
    (id : ℕ) × (a : AlertInstance ℕ) × (settled_step
        (env_with (api ∷ []))
        first.0
        (at_minute 5)
        id
        (row_of first.0 id (api ∷ []))
        (lookup id first.0.alerts)
      ≡ some a)
    × (is_due (env_with (api ∷ [])) first.0 (at_minute 5) a ≡ true)
    × (sent_api ≡ sent_copy (env_with (api ∷ [])) first.0 (at_minute 5) a))
unfolding exec new_alerting_rule hash_labels build_labels lookup insert text_eq text_lt write
    sort_by sub ◌-ℤ◌ sweep
exec_sends_example =
    exec_sends (env_with (api ∷ [])) first.0 (at_minute 5) (pos 2) (at_minute 5) (pos 1) (api ∷ [])
      (alerts_of second.1) sent_api (refl, tt) refl refl
