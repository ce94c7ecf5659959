-- ===== src/Rule/Exec.antt =====
-- rule/rule.go: `Exec`, one evaluation of a rule, and `alertsToSend`. Logging is left out.
mod Answers
unfoldable pub use Answers.*
pub mod Send
pub mod Observe
pub mod Machine
pub mod Refines
pub mod Outcome
pub mod Errors
pub mod Panics
pub mod Sound
pub mod Invariant
pub mod Transitions
pub mod Runs
mod Tests
pub mod Resend
pub mod Lapse
use chalert.Prelude.{
  ℕ, zero, suc, ◌+◌, Bool, true, false, not, ◌&&◌, ◌||◌, List, [], ◌∷◌, length, Option, none, some,
  Text, codes, Map, lookup, insert, delete, sweep, nat_eq, ◌==◌, pos, ltb_ℤ, ℤ, if◌then◌else◌,
}
use chalert.Time.{Time, Duration, zero_time, is_zero, after, sub, minute}
use chalert.Datasource.{Metric, QuerierParams}
use chalert.Rule.Instance.{
  AlertState, inactive, pending, firing, AlertInstance, Alerts, AlertingRule,
}
use chalert.Rule.Labels.{build_labels, hash_labels, render_annotations, Templates}

abbrev pub resolved_retention : Duration
resolved_retention = pos 900000000000

abbrev pub exceeds : ℕ → ℤ → Bool
exceeds n limit = ltb_ℤ (pos 0) limit && ltb_ℤ limit (pos n)

abbrev pub member : ℕ → List ℕ → Bool
member id [] = false
member id (j ∷ seen) = j == id || member id seen

module _ {F : Type 0} where
  -- The clean-up of resolved alerts past retention, at one entry.
  pub purge_one : Time → AlertInstance F → Option (AlertInstance F)
  purge_one ts a = elim a.state [
    | inactive ↦ if ltb_ℤ resolved_retention (sub ts a.resolved_at) then none else some a
    | pending ↦ some a
    | firing ↦ some a
  ]

  -- A resolved alert that matches again is pending anew.
  pub reactivate : Time → AlertInstance F → AlertInstance F
  reactivate ts a = elim a.state [
    | inactive ↦ record a { state = pending; active_at = ts; resolved_at = zero_time }
    | pending ↦ a
    | firing ↦ a
  ]

  module _ (env : Env F) (ar : AlertingRule F) (ts : Time) where
    annotations_of : Metric F → Map Text Text
    annotations_of m = render_annotations env.float_zero env.templates ar.expr ar.ann_tpls m

    -- The instance after a row with the value `v`, from the instance before it, if there was one.
    pub observe_one : Metric F → Map Text Text → ℕ → F → Option (AlertInstance F) → AlertInstance F
    unfolding annotations_of reactivate
    observe_one m labels id v (some a) = record (reactivate ts a) {
      value = v;
      annotations = annotations_of m;
      keep_firing_since = zero_time;
    }
    observe_one m labels id v none = record {
      id = id;
      rule_id = ar.rule_id;
      group_name = ar.group_name;
      alert_name = ar.name;
      labels = labels;
      annotations = annotations_of m;
      state = pending;
      value = v;
      expr = ar.expr;
      active_at = ts;
      fired_at = zero_time;
      resolved_at = zero_time;
      last_sent = zero_time;
      keep_firing_since = zero_time;
      for_dur = ar.for_dur;
      evaluation_interval = pos 0;
    }

    -- A row without a value panics at `m.Values[0]`, when an existing alert is reactivated already.
    pub touch : ℕ → Option (AlertInstance F) → Alerts F → Alerts F
    unfolding reactivate
    touch id none alerts = alerts
    touch id (some a) alerts = insert id (reactivate ts a) alerts

    -- The loop over the rows: the alerts, the identities seen, and why the loop stopped early.
    pub observe_rows : List (Metric F) → List ℕ → Alerts F → Alerts F × List ℕ × Option Stop
    unfolding touch observe_one
    observe_rows [] seen alerts = (alerts, seen, none)
    observe_rows (m ∷ ms) seen alerts =
        let labels = build_labels ar.name ar.labels m.labels in
        let id = hash_labels labels in
        let old = lookup id alerts in
        elim (member id seen) [
          | true ↦ (alerts, seen, some (duplicate labels))
          | false ↦ elim m.values [
            | [] ↦ (touch id old alerts, id ∷ seen, some no_value)
            | v ∷ vs ↦
                observe_rows ms (id ∷ seen) (insert id (observe_one m labels id v old) alerts)
          ]
        ]

    pub resolve_one : AlertInstance F → AlertInstance F
    resolve_one a = record a { state = inactive; resolved_at = ts }

    -- A firing alert that the query no longer returns.
    pub release_one : AlertInstance F → AlertInstance F × Bool
    unfolding resolve_one
    release_one a =
        let held = if is_zero a.keep_firing_since then record a { keep_firing_since = ts } else a in
        if ltb_ℤ (pos 0) ar.keep_fire
        then if ltb_ℤ (sub ts held.keep_firing_since) ar.keep_fire
          then (held, true)
          else (resolve_one held, false)
        else (resolve_one a, false)

    -- Pending becomes firing when `for` has elapsed.
    pub promote_one : AlertInstance F → AlertInstance F
    promote_one a = elim a.state [
      | pending ↦
          if ltb_ℤ (sub ts a.active_at) ar.for_dur
          then a
          else record a { state = firing; fired_at = ts }
      | firing ↦ a
      | inactive ↦ a
    ]

    -- The second loop at one entry: what is kept, and whether it counts as active.
    pub settle_one : Bool → AlertInstance F → Option (AlertInstance F) × Bool
    unfolding release_one promote_one
    settle_one true a = (some (promote_one a), true)
    settle_one false a = elim a.state [
      | pending ↦ (none, false)
      | firing ↦ let (b, active) = release_one a in (some b, active)
      | inactive ↦ (some a, false)
    ]

    pub settle : List ℕ → Alerts F → Alerts F
    unfolding settle_one
    settle seen alerts = sweep (λ id a. (settle_one (member id seen) a).0) alerts

    pub num_active : List ℕ → Alerts F → ℕ
    unfolding settle_one
    num_active seen [] = 0
    num_active seen ((id, a) ∷ rest) =
        (if (settle_one (member id seen) a).1 then 1 else 0) + num_active seen rest

    -- `alertsToSend` at one entry.
    pub is_due : AlertInstance F → Bool
    is_due a = elim a.state [
      | pending ↦ false
      | firing ↦ not (
          not (is_zero a.last_sent)
          && after a.last_sent a.fired_at
          && ltb_ℤ (sub ts a.last_sent) env.resend_delay)
      | inactive ↦ not (is_zero a.resolved_at)
    ]

    pub stamp_one : AlertInstance F → AlertInstance F
    unfolding is_due
    stamp_one a = if is_due a then record a { last_sent = ts } else a

    pub stamp : Alerts F → Alerts F
    unfolding stamp_one
    stamp = sweep (λ id a. some (stamp_one a))

    pub alerts_to_send : Alerts F → List (AlertInstance F)
    unfolding is_due
    alerts_to_send [] = []
    alerts_to_send ((id, a) ∷ rest) =
        let out = alerts_to_send rest in
        if is_due a
        then record a { last_sent = ts; evaluation_interval = ar.group_interval } ∷ out
        else out

    -- The part of `Exec` after the loop over the rows.
    pub conclude : ℤ → List ℕ → Alerts F → Alerts F × ExecResult F
    unfolding settle num_active stamp alerts_to_send
    conclude limit seen alerts =
        let active = num_active seen alerts in
        let settled = settle seen alerts in
        if exceeds active limit
        then ([], failed (limit_exceeded ar.name limit active))
        else (stamp settled, to_send (alerts_to_send settled))

    pub process_rows : ℤ → List (Metric F) → Alerts F × ExecResult F
    unfolding observe_rows conclude purge_one
    process_rows limit rows =
        let (alerts, seen, stopped) =
          observe_rows rows [] (sweep (λ id a. purge_one ts a) ar.alerts) in
        elim stopped [
          | some s ↦ (alerts, stop_result ar.name s)
          | none ↦ conclude limit seen alerts
        ]

    pub answer : ℤ → List (Metric F) → Option Text → Alerts F × ExecResult F
    unfolding process_rows
    answer limit rows (some e) = (ar.alerts, failed (query_failed ar.name e))
    answer limit rows none =
        if exceeds (length rows) limit
        then (ar.alerts, failed (too_many_rows ar.name (length rows) limit))
        else process_rows limit rows

  -- `Exec`: `start` and `duration` are what the clock shows around the query.
  pub exec : Env F → AlertingRule F → Time → ℤ → Time → Duration → AlertingRule F × ExecResult F
  unfolding answer
  exec env ar ts limit start duration = elim (env.query ar.querier ar.expr ts) [
    | query_panics p ↦ (ar, panicked p)
    | returned rows e ↦
        let (alerts, result) = answer env ar ts limit rows e in
        (
          record ar {
            alerts = alerts;
            last_eval = start;
            last_duration = duration;
            last_samples = length rows;
            last_err = e;
          },
          result,
        )
  ]
