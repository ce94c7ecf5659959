-- ===== src/Rule/Exec/Resend.antt =====
-- How often an instance is sent (rule/rule.go): the resend delay, and where it does not hold.
use chalert.Prelude.{
  In, ℕ, ◌≡◌, refl, sym, ap, ◌∙◌, subst, true, false, List, none, some, lookup, nat_eq, IsDistinct,
  then_map, ℤ, ◌<ℤ◌, ltb_ℤ, arith,
}
use mathlib.Core.Option.{some-injective}
use chalert.Time.{Time, Duration, is_zero, sub}
use chalert.Datasource.{Metric}
use chalert.Rule.Instance.{inactive, firing, AlertInstance, AlertingRule}
use chalert.Rule.Exec.{
  Env, returned, to_send, purge_one, observe_one, reactivate, settle_one, promote_one, stamp_one,
  is_due, exec, resolved_retention,
}
use chalert.Rule.Exec.Observe.{row_of, labels_of, value_or}
use chalert.Rule.Exec.Machine.{settled_step}
use chalert.Rule.Exec.Invariant.{IsKeyed, exec-IsKeyed}
use chalert.Rule.Exec.Refines.{exec_refines}
use chalert.Rule.Exec.Send.{sent_copy, exec_sends}

module _ {F : Type 0} (env : Env F) (ar : AlertingRule F) (ts : Time) where
  -- A firing instance that a row matches goes on firing, and keeps its marks until it is sent.
  pub settled_firing :
      (id : ℕ) (m : Metric F) (a : AlertInstance F)
      → a.state ≡ firing
      → (c : AlertInstance F) × (settled_step env ar ts id (some m) (some a) ≡ some c)
        × (c.state ≡ firing)
        × (c.last_sent ≡ a.last_sent)
        × (c.fired_at ≡ a.fired_at)
  unfolding purge_one observe_one reactivate settle_one promote_one
  settled_firing id m a e = (
    observe_one env ar ts m (labels_of ar m) id (value_or env.float_zero m.values) (some a),
    ground arith,
    ground arith,
    ground arith,
    ground arith,
  )

  -- A resolved instance that stays away, within the retention, stays as it is.
  settled_resolved :
      (id : ℕ) (a : AlertInstance F)
      → a.state ≡ inactive
      → ltb_ℤ resolved_retention (sub ts a.resolved_at) ≡ false
      → settled_step env ar ts id none (some a) ≡ some a
  unfolding purge_one settle_one
  settled_resolved id a e within = ground arith

  due_at_firing :
      (c : AlertInstance F)
      → c.state ≡ firing
      → c.last_sent ≡ c.fired_at
      → is_due env ar ts c ≡ true
  unfolding is_due
  due_at_firing c e same = ground arith

  pub not_due :
      (c : AlertInstance F)
      → c.state ≡ firing
      → is_zero c.last_sent ≡ false
      → c.fired_at <ℤ c.last_sent
      → ltb_ℤ (sub ts c.last_sent) env.resend_delay ≡ true
      → is_due env ar ts c ≡ false
  unfolding is_due
  not_due c e nonzero later recent = ground arith

  due_resolved :
      (c : AlertInstance F)
      → c.state ≡ inactive
      → is_zero c.resolved_at ≡ false
      → is_due env ar ts c ≡ true
  unfolding is_due
  due_resolved c e nonzero = ground arith

  id-stamp : (c : AlertInstance F) → (stamp_one env ar ts c).id ≡ c.id
  unfolding stamp_one
  id-stamp c = ground arith

  pub sent_zero : {s t : Time} → s ≡ t → is_zero t ≡ false → is_zero s ≡ false
  sent_zero e h = subst (λ x. is_zero x ≡ false) (sym e) h

  pub sent_later : {f g s t : Time} → f ≡ g → s ≡ t → g <ℤ t → f <ℤ s
  sent_later {f} {g} {s} {t} e e' h = subst (λ x. x <ℤ s) (sym e) (subst (λ x. g <ℤ x) (sym e') h)

  pub sent_recent :
      {s t : Time}
      → s ≡ t
      → ltb_ℤ (sub ts t) env.resend_delay ≡ true
      → ltb_ℤ (sub ts s) env.resend_delay ≡ true
  sent_recent e h = subst (λ x. ltb_ℤ (sub ts x) env.resend_delay ≡ true) (sym e) h

  module _ (limit : ℤ) (start : Time) (duration : Duration) (rows : List (Metric F)) where
    -- The resend delay does not hold after a first notification: a firing instance that was last
    -- sent at the instant at which it fired is sent again by the next evaluation that matches it and
    -- returns alerts, whatever the delay.
    exec_resends_early :
        (out : List (AlertInstance F)) (id : ℕ) (m : Metric F) (a : AlertInstance F)
        → IsDistinct ar.alerts
        → env.query ar.querier ar.expr ts ≡ returned rows none
        → (exec env ar ts limit start duration).1 ≡ to_send out
        → row_of ar id rows ≡ some m
        → lookup id ar.alerts ≡ some a
        → a.state ≡ firing
        → a.last_sent ≡ a.fired_at
        → (b : AlertInstance F) × In b out
          × (b.state ≡ firing)
          × (b.fired_at ≡ a.fired_at)
          × (b.last_sent ≡ ts)
    exec_resends_early out id m a d q h row old e same =
        let (c, settles, fires, sent, fired) = settled_firing id m a e in
        let due = due_at_firing c fires (sent ∙ same ∙ sym fired) in
        let b = sent_copy env ar ts c in
        (
          b,
          (exec_sends env ar ts limit start duration rows out b d q h).1
              (id, c, rw (row, old) settles, due, refl),
          fires,
          fired,
          refl,
        )

    -- A resolved instance is sent again by every evaluation that returns alerts and does not match
    -- it, until its retention is over.
    pub exec_resends_resolved :
        (out : List (AlertInstance F)) (id : ℕ) (a : AlertInstance F)
        → IsDistinct ar.alerts
        → env.query ar.querier ar.expr ts ≡ returned rows none
        → (exec env ar ts limit start duration).1 ≡ to_send out
        → row_of ar id rows ≡ none
        → lookup id ar.alerts ≡ some a
        → a.state ≡ inactive
        → is_zero a.resolved_at ≡ false
        → ltb_ℤ resolved_retention (sub ts a.resolved_at) ≡ false
        → In (sent_copy env ar ts a) out
          × (lookup id (exec env ar ts limit start duration).0.alerts
              ≡ some (record a { last_sent = ts }))
    unfolding stamp_one
    exec_resends_resolved out id a d q h row old e nonzero within =
        let settles : settled_step env ar ts id (row_of ar id rows) (lookup id ar.alerts) ≡ some a =
          rw (row, old) (settled_resolved id a e within) in
        let due = due_resolved a e nonzero in
        (
          (exec_sends env ar ts limit start duration rows out (sent_copy env ar ts a) d q h).1
              (id, a, settles, due, refl),
          (exec_refines env ar ts limit start duration rows out d q h).1 id ∙ rw settles (rw due),
        )

    -- In a rule whose instances are filed under their identities, a firing instance that was sent
    -- after it fired, less than the delay ago, is not sent by an evaluation that matches it and
    -- returns alerts.
    pub exec_respects_delay :
        (out : List (AlertInstance F)) (id : ℕ) (m : Metric F) (a b : AlertInstance F)
        → IsKeyed ar.rule_id ar.alerts
        → env.query ar.querier ar.expr ts ≡ returned rows none
        → (exec env ar ts limit start duration).1 ≡ to_send out
        → row_of ar id rows ≡ some m
        → lookup id ar.alerts ≡ some a
        → a.state ≡ firing
        → is_zero a.last_sent ≡ false
        → a.fired_at <ℤ a.last_sent
        → ltb_ℤ (sub ts a.last_sent) env.resend_delay ≡ true
        → b.id ≡ id
        → ¬ In b out
    exec_respects_delay out id m a b k q h row old e nonzero later recent same i =
        let (j, c, at_j, due, eb) =
          (exec_sends env ar ts limit start duration rows out b k.distinct q h).0 i in
        let kept =
          (exec_refines env ar ts limit start duration rows out k.distinct q h).1 j
          ∙ ap (λ o. then_map o (λ x. some (stamp_one env ar ts x))) at_j in
        let filed =
          (exec-IsKeyed env ar ts limit start duration k).keyed j (stamp_one env ar ts c) kept in
        let here : j ≡ id = sym filed.0 ∙ id-stamp c ∙ sym (ap (λ x. x.id) eb) ∙ same in
        let (c', settles, fires, sent, fired) = settled_firing id m a e in
        let one : settled_step env ar ts id (some m) (some a) ≡ some c =
          subst (λ o. settled_step env ar ts id o (some a) ≡ some c) row
            (subst (λ o. settled_step env ar ts id (row_of ar id rows) o ≡ some c) old
              (subst
                (λ x. settled_step env ar ts x (row_of ar x rows) (lookup x ar.alerts) ≡ some c)
                here at_j)) in
        let equal : c' ≡ c = some-injective c' c (sym settles ∙ one) in
        let quiet =
          not_due c' fires (sent_zero sent nonzero) (sent_later fired sent later)
            (sent_recent sent recent) in
        cc (quiet, due, equal)
