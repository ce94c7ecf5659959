-- ===== src/Rule/Exec/Lapse.antt =====
-- A firing alert between two notifications: the end that notifier/alertmanager.go gives it, and the
-- resend delay of rule/rule.go.
use chalert.Prelude.{
  In, ℕ, ◌≡◌, refl, sym, ◌∙◌, subst, true, false, List, none, some, lookup, nat_eq, ℤ, ◌<ℤ◌, ltb_ℤ,
  pos,
}
use chalert.Time.{Time, Duration, is_zero, sub, add}
use chalert.Datasource.{Metric}
use chalert.Rule.Instance.{firing, AlertInstance, AlertingRule}
use chalert.Rule.Exec.{Env, returned, to_send, stamp_one, exec}
use chalert.Rule.Exec.Observe.{row_of}
use chalert.Rule.Exec.Machine.{settled_step}
use chalert.Rule.Exec.Invariant.{IsKeyed}
use chalert.Rule.Exec.Refines.{exec_refines}
use chalert.Rule.Exec.Resend.{
  settled_firing, not_due, sent_zero, sent_later, sent_recent, exec_respects_delay,
}
use chalert.Notifier.{AlertManager, AmAlert, am_alert, four_times}
use chalert.Notifier.Payload.{ends_at-am_alert}

module _ {F : Type 0} (env : Env F) (ar : AlertingRule F) (ts : Time) (limit : ℤ) (start : Time)
    (duration : Duration) (rows : List (Metric F)) where
  -- What of the instance is left when it is not sent.
  unsent_firing :
      (out : List (AlertInstance F)) (id : ℕ) (m : Metric F) (a : AlertInstance F)
      → IsKeyed ar.rule_id ar.alerts
      → env.query ar.querier ar.expr ts ≡ returned rows none
      → (exec env ar ts limit start duration).1 ≡ to_send out
      → row_of ar id rows ≡ some m
      → lookup id ar.alerts ≡ some a
      → a.state ≡ firing
      → is_zero a.last_sent ≡ false
      → a.fired_at <ℤ a.last_sent
      → ltb_ℤ (sub ts a.last_sent) env.resend_delay ≡ true
      → (c : AlertInstance F) × (lookup id (exec env ar ts limit start duration).0.alerts ≡ some c)
        × (c.state ≡ firing)
        × (c.last_sent ≡ a.last_sent)
  unfolding stamp_one
  unsent_firing out id m a k q h row old e nonzero later recent =
      let (c, settles, fires, sent, fired) = settled_firing env ar ts id m a e in
      let quiet =
        not_due env ar ts c fires (sent_zero env ar ts sent nonzero)
          (sent_later env ar ts fired sent later) (sent_recent env ar ts sent recent) in
      let step : settled_step env ar ts id (row_of ar id rows) (lookup id ar.alerts) ≡ some c =
        rw (row, old) settles in
      (
        c,
        (exec_refines env ar ts limit start duration rows out k.distinct q h).1 id
            ∙ rw step (rw quiet refl),
        fires,
        sent,
      )

  -- When the interval of the group is positive, the end that a notification gives a firing alert is
  -- four intervals after the payload was made, whatever the resend delay is. So take a rule that files
  -- each alert once, under its identity, and a firing instance that was sent after it fired. In an
  -- evaluation after that end and within the resend delay, whose query succeeds with a row of the
  -- instance and which returns alerts, the instance goes on firing with the same time of its last
  -- notification and is not sent, though the end that Alertmanager was told has passed.
  pub alert_lapses :
      (am : AlertManager) (now : Time) (aa : AmAlert) (out : List (AlertInstance F)) (id : ℕ)
      (m : Metric F) (a b : AlertInstance F)
      → IsKeyed ar.rule_id ar.alerts
      → env.query ar.querier ar.expr ts ≡ returned rows none
      → (exec env ar ts limit start duration).1 ≡ to_send out
      → row_of ar id rows ≡ some m
      → lookup id ar.alerts ≡ some a
      → a.state ≡ firing
      → is_zero a.last_sent ≡ false
      → a.fired_at <ℤ a.last_sent
      → ltb_ℤ (sub ts a.last_sent) env.resend_delay ≡ true
      → ltb_ℤ (pos 0) ar.group_interval ≡ true
      → am_alert am now (record a { evaluation_interval = ar.group_interval }) ≡ some aa
      → add now (four_times ar.group_interval) <ℤ ts
      → b.id ≡ id
      → (aa.ends_at <ℤ ts)
        × ((c : AlertInstance F) × (lookup id (exec env ar ts limit start duration).0.alerts
              ≡ some c)
            × (c.state ≡ firing)
            × (c.last_sent ≡ a.last_sent))
        × (¬ In b out)
  alert_lapses am now aa out id m a b k q h row old e nonzero later recent positive payload ended
        same =
      let copy = record a { evaluation_interval = ar.group_interval } in
      (
        subst (λ t. t <ℤ ts) (sym (ends_at-am_alert am now copy aa e positive payload)) ended,
        unsent_firing out id m a k q h row old e nonzero later recent,
        exec_respects_delay env ar ts limit start duration rows out id m a b k q h row old e nonzero
            later recent same,
      )
