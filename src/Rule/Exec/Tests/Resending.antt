-- ===== src/Rule/Exec/Tests/Resending.antt =====
-- The same rule: which of its alerts are sent again, and when.
use chalert.Prelude.{
  In, ℕ, ◌≡◌, refl, [], ◌∷◌, some, lookup, insert, sweep, nat_eq, text_Eq, pos, ◌-ℤ◌, ◌+ℤ◌, ◌<ℤ◌,
  codes, nat_eq, text_eq, text_lt, arith,
}
use chalert.Time.{Time, sub}
use chalert.Hash.{write}
use chalert.Sort.{sort_by}
use chalert.Rule.Instance.{inactive, firing, AlertInstance, AlertingRule, new_alerting_rule}
use chalert.Rule.Labels.{build_labels, hash_labels, render_annotations}
use chalert.Rule.Exec.Observe.{row_of}
use chalert.Rule.Exec.Send.{sent_copy}
use chalert.Rule.Exec.Invariant.{IsKeyed, exec-IsKeyed}
use chalert.Rule.Exec.Resend.{exec_resends_resolved}
use chalert.Rule.Exec.Lapse.{alert_lapses}
use chalert.Notifier.{AlertManager, AmAlert, am_alert}
use chalert.Rule.Exec.{ExecResult, exec}
use chalert.Rule.Exec.Tests.{
  rule, api, env_with, at_minute, api_id, alerts_of, eval, first, second, resolved, rule-IsKeyed,
  sent_api,
}

abbrev resolved_api : AlertInstance ℕ
resolved_api = record sent_api {
  state = inactive;
  resolved_at = at_minute 9;
  keep_firing_since = at_minute 6;
  last_sent = at_minute 9;
  evaluation_interval = pos 0;
}

-- One minute after it was sent as resolved, it is sent as resolved again.
exec_resends_resolved_example :
    In
      (sent_copy (env_with []) resolved.0 (at_minute 10) resolved_api)
      (alerts_of (eval [] 10 resolved.0).1)
    × (lookup api_id (eval [] 10 resolved.0).0.alerts
        ≡ some (record resolved_api { last_sent = at_minute 10 }))
unfolding exec new_alerting_rule hash_labels build_labels lookup insert text_eq text_lt write
    sort_by sub ◌-ℤ◌ sweep render_annotations row_of
exec_resends_resolved_example =
    exec_resends_resolved (env_with []) resolved.0 (at_minute 10) (pos 2) (at_minute 10) (pos 1) []
      (alerts_of (eval [] 10 resolved.0).1) api_id resolved_api (refl, tt) refl refl refl refl refl
      refl refl

-- Sent at minute 6, after it fired at minute 5, and evaluated again half a minute later.
abbrev again : AlertingRule ℕ × ExecResult ℕ
again = eval (api ∷ []) 6 second.0

again-IsKeyed : IsKeyed 7 again.0.alerts
unfolding exec new_alerting_rule hash_labels build_labels lookup insert text_eq text_lt write
    sort_by sub ◌-ℤ◌ sweep render_annotations row_of
again-IsKeyed =
    exec-IsKeyed (env_with (api ∷ [])) second.0 (at_minute 6) (pos 2) (at_minute 6) (pos 1) (
      exec-IsKeyed (env_with (api ∷ [])) first.0 (at_minute 5) (pos 2) (at_minute 5) (pos 1) (
        exec-IsKeyed (env_with (api ∷ [])) rule (at_minute 0) (pos 2) (at_minute 0) (pos 1)
          rule-IsKeyed))

abbrev half_past : Time
half_past = pos 1390000000000

-- A rule that is evaluated every five seconds: the payload made at minute 6 ended for Alertmanager
-- twenty seconds later.
abbrev quick : AlertingRule ℕ
quick = record again.0 { group_interval = pos 5000000000 }

abbrev manager : AlertManager
manager = record {
  urls = codes "http://a" ∷ [];
  external_url = [];
  username = [];
  password = [];
  bearer_token = [];
}

abbrev kept_api : AlertInstance ℕ
kept_api = record sent_api { evaluation_interval = pos 0; last_sent = at_minute 6 }

abbrev payload_api : AmAlert
payload_api = record {
  status = codes "firing";
  labels = kept_api.labels;
  annotations = [];
  starts_at = kept_api.active_at;
  ends_at = pos 1380000000000;
  generator_url = [];
}

abbrev later_on : AlertingRule ℕ × ExecResult ℕ
later_on = exec (env_with (api ∷ [])) quick half_past (pos 2) half_past (pos 1)

alert_lapses_example :
    (payload_api.ends_at <ℤ half_past)
    × ((c : AlertInstance ℕ) × (lookup api_id later_on.0.alerts ≡ some c)
        × (c.state ≡ firing)
        × (c.last_sent ≡ at_minute 6))
    × (¬ In sent_api (alerts_of later_on.1))
unfolding exec new_alerting_rule hash_labels build_labels lookup insert text_eq text_lt write
    sort_by sub ◌-ℤ◌ sweep render_annotations row_of am_alert ◌+ℤ◌
alert_lapses_example =
    alert_lapses (env_with (api ∷ [])) quick half_past (pos 2) half_past (pos 1) (api ∷ []) manager
      (at_minute 6) payload_api (alerts_of later_on.1) api_id api kept_api sent_api again-IsKeyed
      refl refl refl refl refl refl (ground arith) refl refl refl (ground arith) refl
