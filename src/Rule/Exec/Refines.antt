-- ===== src/Rule/Exec/Refines.antt =====
-- `Exec` of rule/rule.go over the whole rule refines the machine of one instance.
use chalert.Prelude.{
  ℕ, ◌≡◌, refl, sym, ap, ◌∙◌, subst, inl, inr, Bool, true, false, ◌||◌, List, [], length, Option,
  none, some, lookup, sweep, nat_eq, IsDistinct, sweep-IsDistinct, lookup-sweep, then_map, ℤ, arith,
  Bool-cases, Option-cases,
}
use chalert.Time.{Time, Duration}
use chalert.Datasource.{Metric}
use chalert.Rule.Instance.{AlertInstance, Alerts, AlertingRule}
use chalert.Rule.Exec.{
  Env, returned, to_send, Stop, duplicate, no_value, exceeds, member, purge_one, settle_one,
  stamp_one, observe_rows, settle, stamp, alerts_to_send, num_active, conclude, process_rows,
  answer, exec,
}
use chalert.Rule.Exec.Observe.{row_of, is_some_row, after_row, observe_rows_lem}
use chalert.Rule.Exec.Machine.{
  settled_step, instance_step, state_of, next_state, state_of-instance_step,
}

or_false : (b : Bool) → (b || false) ≡ b
or_false true = refl
or_false false = refl

module _ {F : Type 0} (env : Env F) (ar : AlertingRule F) (ts : Time) (limit : ℤ) where
  stamp-IsDistinct : (m : Alerts F) → IsDistinct m → IsDistinct (stamp env ar ts m)
  unfolding stamp
  stamp-IsDistinct m d = sweep-IsDistinct (λ id a. some (stamp_one env ar ts a)) m d

  lookup-stamp :
      (id : ℕ) (m : Alerts F)
      → IsDistinct m
      → lookup id (stamp env ar ts m) ≡ then_map (lookup id m) (λ a. some (stamp_one env ar ts a))
  unfolding stamp
  lookup-stamp id m d = lookup-sweep (λ j a. some (stamp_one env ar ts a)) id m d

  abbrev pub purged : Alerts F
  purged = sweep (λ id a. purge_one ts a) ar.alerts

  abbrev pub looped : List (Metric F) → Alerts F × List ℕ × Option Stop
  looped rows = observe_rows env ar ts rows [] purged

  -- What the rule holds before the last-sent marks.
  abbrev pub settled : List (Metric F) → Alerts F
  settled rows = settle env ar ts (looped rows).1 (looped rows).0

  -- An evaluation that returns alerts has gone through both loops and kept within the limit.
  conclude_sent :
      (seen : List ℕ) (alerts : Alerts F) (out : List (AlertInstance F))
      → (conclude env ar ts limit seen alerts).1 ≡ to_send out
      → (conclude env ar ts limit seen alerts
          ≡ (stamp env ar ts (settle env ar ts seen alerts), to_send out))
        × (out ≡ alerts_to_send env ar ts (settle env ar ts seen alerts))
        × (exceeds (num_active env ar ts seen alerts) limit ≡ false)
  unfolding conclude
  conclude_sent seen alerts out h =
      elim (Bool-cases (exceeds (num_active env ar ts seen alerts) limit)) [
        | inl over ↦ ground arith
        | inr within ↦ (ground arith, ground arith, within)
      ]

  pub process_sent :
      (rows : List (Metric F)) (out : List (AlertInstance F))
      → (process_rows env ar ts limit rows).1 ≡ to_send out
      → ((looped rows).2 ≡ none)
        × ((process_rows env ar ts limit rows).0 ≡ stamp env ar ts (settled rows))
        × (out ≡ alerts_to_send env ar ts (settled rows))
  unfolding process_rows
  process_sent rows out h = elim (Option-cases (looped rows).2) [
    | inl ended ↦
        let r = conclude_sent (looped rows).1 (looped rows).0 out (ground arith) in
        (ended, ground (arith, r.0), r.1)
    | inr (duplicate labels, stopped) ↦ ground arith
    | inr (no_value, stopped) ↦ ground arith
  ]

  pub lookup-settled :
      (rows : List (Metric F))
      → IsDistinct ar.alerts
      → (looped rows).2 ≡ none
      → IsDistinct (settled rows)
        × ((id : ℕ)
            → lookup id (settled rows)
              ≡ settled_step env ar ts id (row_of ar id rows) (lookup id ar.alerts))
  unfolding settle
  lookup-settled rows d ended =
      let d' = sweep-IsDistinct (λ id a. purge_one ts a) ar.alerts d in
      (
        sweep-IsDistinct (λ id a. (settle_one env ar ts (member id (looped rows).1) a).0)
            (looped rows).0 (observe_rows_lem env ar ts 0 rows [] purged d' ended).0,
        λ id.
            let o = observe_rows_lem env ar ts id rows [] purged d' ended in
            lookup-sweep (λ j a. (settle_one env ar ts (member j (looped rows).1) a).0) id
              (looped rows).0 o.0
            ∙ ap (λ x. then_map x (λ a. (settle_one env ar ts (member id (looped rows).1) a).0))
                (o.1
                  ∙ ap (after_row env ar ts id (row_of ar id rows))
                      (lookup-sweep (λ j a. purge_one ts a) id ar.alerts d))
            ∙ ap
                (λ b.
                  then_map
                    (after_row env ar ts id (row_of ar id rows)
                      (then_map (lookup id ar.alerts) (purge_one ts)))
                    (λ a. (settle_one env ar ts b a).0))
                (o.2 ∙ or_false (is_some_row (row_of ar id rows))),
      )

  module _ (start : Time) (duration : Duration) (rows : List (Metric F)) where
    pub exec_answer :
        (out : List (AlertInstance F))
        → env.query ar.querier ar.expr ts ≡ returned rows none
        → (exec env ar ts limit start duration).1 ≡ to_send out
        → ((exec env ar ts limit start duration).0.alerts ≡ (process_rows env ar ts limit rows).0)
          × ((process_rows env ar ts limit rows).1 ≡ to_send out)
    unfolding exec answer
    exec_answer out q h = elim (Bool-cases (exceeds (length rows) limit)) [
      | inl over ↦ ground arith
      | inr within ↦ (ground arith, ground arith)
    ]

    -- If an evaluation returns alerts to send, then whatever the order in which the rule's map is
    -- ranged over, each identity's instance is what the machine of one instance makes of the first
    -- row with that identity (or of its absence) and of the instance before; no identity is doubled.
    pub exec_refines :
        (out : List (AlertInstance F))
        → IsDistinct ar.alerts
        → env.query ar.querier ar.expr ts ≡ returned rows none
        → (exec env ar ts limit start duration).1 ≡ to_send out
        → IsDistinct (exec env ar ts limit start duration).0.alerts
          × ((id : ℕ)
              → lookup id (exec env ar ts limit start duration).0.alerts
                ≡ instance_step env ar ts id (row_of ar id rows) (lookup id ar.alerts))
    exec_refines out d q h =
        let a = exec_answer out q h in
        let p = process_sent rows out a.1 in
        let s = lookup-settled rows d p.0 in
        let e = a.0 ∙ p.1 in
        (
          subst (λ m. IsDistinct m) (sym e) (stamp-IsDistinct (settled rows) s.0),
          λ id.
              ap (lookup id) e
              ∙ lookup-stamp id (settled rows) s.0
              ∙ ap (λ o. then_map o (λ b. some (stamp_one env ar ts b))) (s.1 id),
        )

    -- The state of each instance after an evaluation that returns alerts is the one that the state
    -- diagram gives for its state before and for whether a row matched it.
    pub exec-next_state :
        (out : List (AlertInstance F)) (id : ℕ)
        → IsDistinct ar.alerts
        → env.query ar.querier ar.expr ts ≡ returned rows none
        → (exec env ar ts limit start duration).1 ≡ to_send out
        → state_of env ar ts (lookup id (exec env ar ts limit start duration).0.alerts)
          ≡ next_state env ar ts (is_some_row (row_of ar id rows)) (lookup id ar.alerts)
    exec-next_state out id d q h =
        ap (state_of env ar ts) ((exec_refines out d q h).1 id)
        ∙ state_of-instance_step env ar ts id (row_of ar id rows) (lookup id ar.alerts)
