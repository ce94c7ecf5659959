-- ===== src/Rule/Exec/Invariant.antt =====
-- What every evaluation keeps of a rule's map of alerts (rule/rule.go), however it ends.
use chalert.Prelude.{
  ℕ, ◌≡◌, refl, sym, ◌∙◌, inl, inr, ◌⊎◌, Text, Bool, true, false, List, [], ◌∷◌, length, Option,
  none, some, lookup, insert, sweep, nat_eq, IsDistinct, insert-IsDistinct, sweep-IsDistinct,
  lookup-sweep, lookup-insert, then_map, ℤ, arith, Bool-cases, Option-cases, ◌==◌, ==_iff,
}
use chalert.Time.{Time, Duration}
use chalert.Datasource.{Metric}
use chalert.Rule.Instance.{AlertInstance, Alerts, AlertingRule}
use chalert.Rule.Exec.{
  Env, QueryOutcome, returned, query_panics, exceeds, member, purge_one, reactivate, observe_one,
  touch, settle_one, promote_one, release_one, resolve_one, stamp_one, observe_rows, settle,
  num_active, conclude, process_rows, answer, exec,
}
use chalert.Rule.Exec.Observe.{labels_of, id_of, observe_cases}

pub outcome_cases :
    {F : Type 0} (q : QueryOutcome F)
    → ((p : Text) × (q ≡ query_panics p))
      ⊎ ((rows : List (Metric F)) × (e : Option Text) × (q ≡ returned rows e))
outcome_cases (query_panics p) = inl (p, refl)
outcome_cases (returned rows e) = inr (rows, e, refl)

module _ {F : Type 0} where
  -- One entry for each identity, and each under its own identity and the rule's.
  pub record IsKeyed (rule_id : ℕ) (m : Alerts F) : Type 0 where
    pub distinct : IsDistinct m
    pub keyed :
        (id : ℕ) (a : AlertInstance F) → lookup id m ≡ some a → (a.id ≡ id) × (a.rule_id ≡ rule_id)

  -- The update does not touch what identifies an instance.
  abbrev KeepsIdentity : (AlertInstance F → Option (AlertInstance F)) → Type 0
  KeepsIdentity f = (a b : AlertInstance F) → f a ≡ some b → (b.id ≡ a.id) × (b.rule_id ≡ a.rule_id)

  then_map-some :
      (o : Option (AlertInstance F)) (f : AlertInstance F → Option (AlertInstance F))
      (b : AlertInstance F)
      → then_map o f ≡ some b
      → (a : AlertInstance F) × (o ≡ some a) × (f a ≡ some b)
  then_map-some none f b h = cc
  then_map-some (some a) f b h = (a, refl, h)

  pub empty-IsKeyed : (rule_id : ℕ) → IsKeyed rule_id []
  unfolding lookup
  empty-IsKeyed rule_id = record { distinct = tt; keyed = λ id a h. cc }

  pub sweep-IsKeyed :
      (rule_id : ℕ) (f : ℕ → AlertInstance F → Option (AlertInstance F)) (m : Alerts F)
      → ((id : ℕ) → KeepsIdentity (f id))
      → IsKeyed rule_id m
      → IsKeyed rule_id (sweep f m)
  sweep-IsKeyed rule_id f m keep k = record {
    distinct = sweep-IsDistinct f m k.distinct;
    keyed = λ id b h.
        let (a, found, e) =
          then_map-some (lookup id m) (f id) b (sym (lookup-sweep f id m k.distinct) ∙ h) in
        let same = keep id a b e in
        let old = k.keyed id a found in (same.0 ∙ old.0, same.1 ∙ old.1);
  }

  pub insert-IsKeyed :
      (rule_id id : ℕ) (a : AlertInstance F) (m : Alerts F)
      → a.id ≡ id
      → a.rule_id ≡ rule_id
      → IsKeyed rule_id m
      → IsKeyed rule_id (insert id a m)
  insert-IsKeyed rule_id id a m e e' k = record {
    distinct = insert-IsDistinct id a m k.distinct;
    keyed = λ j b h. elim (Bool-cases (id == j)) [
      | inl hit ↦ ground (arith, lookup-insert id j a m, ==_iff id j)
      | inr miss ↦ k.keyed j b (ground (arith, lookup-insert id j a m))
    ];
  }

  purge_keeps : (ts : Time) → KeepsIdentity (purge_one ts)
  unfolding purge_one
  purge_keeps ts a b h = ground arith

  module _ (env : Env F) (ar : AlertingRule F) (ts : Time) where
    settle_keeps : (seen : Bool) → KeepsIdentity (λ a. (settle_one env ar ts seen a).0)
    unfolding settle_one promote_one release_one resolve_one
    settle_keeps true a b h = ground arith
    settle_keeps false a b h = ground arith

    stamp_keeps : KeepsIdentity (λ a. some (stamp_one env ar ts a))
    unfolding stamp_one
    stamp_keeps a b h = ground arith

    reactivate_keeps :
        (a : AlertInstance F)
        → ((reactivate ts a).id ≡ a.id) × ((reactivate ts a).rule_id ≡ a.rule_id)
    unfolding reactivate
    reactivate_keeps a = ground arith

    observe_one_keyed :
        (m : Metric F) (id : ℕ) (v : F) (old : Option (AlertInstance F)) (alerts : Alerts F)
        → lookup id alerts ≡ old
        → IsKeyed ar.rule_id alerts
        → let a = observe_one env ar ts m (labels_of ar m) id v old in
          (a.id ≡ id) × (a.rule_id ≡ ar.rule_id)
    unfolding observe_one
    observe_one_keyed m id v none alerts e k = (refl, refl)
    observe_one_keyed m id v (some a) alerts e k =
        let old = k.keyed id a e in
        let same = reactivate_keeps a in (same.0 ∙ old.0, same.1 ∙ old.1)

    touch-IsKeyed :
        (id : ℕ) (old : Option (AlertInstance F)) (alerts : Alerts F)
        → lookup id alerts ≡ old
        → IsKeyed ar.rule_id alerts
        → IsKeyed ar.rule_id (touch env ar ts id old alerts)
    unfolding touch
    touch-IsKeyed id none alerts e k = k
    touch-IsKeyed id (some a) alerts e k =
        let old = k.keyed id a e in
        let same = reactivate_keeps a in
        insert-IsKeyed ar.rule_id id (reactivate ts a) alerts (same.0 ∙ old.0) (same.1 ∙ old.1) k

    observe-IsKeyed :
        (ms : List (Metric F)) (seen : List ℕ) (alerts : Alerts F)
        → IsKeyed ar.rule_id alerts
        → IsKeyed ar.rule_id (observe_rows env ar ts ms seen alerts).0
    observe-IsKeyed [] seen alerts k = unfold observe_rows in k
    observe-IsKeyed (m ∷ ms) seen alerts k =
        let id = id_of ar m in
        observe_cases env ar ts (λ t. IsKeyed ar.rule_id t.0) m ms seen alerts m.values refl
          (λ _. k) (λ _. touch-IsKeyed id (lookup id alerts) alerts refl k)
          (λ v _ _.
            let a = observe_one env ar ts m (labels_of ar m) id v (lookup id alerts) in
            let e = observe_one_keyed m id v (lookup id alerts) alerts refl k in
            observe-IsKeyed ms (id ∷ seen) (insert id a alerts)
              (insert-IsKeyed ar.rule_id id a alerts e.0 e.1 k))

    conclude-IsKeyed :
        (limit : ℤ) (seen : List ℕ) (alerts : Alerts F)
        → IsKeyed ar.rule_id alerts
        → IsKeyed ar.rule_id (conclude env ar ts limit seen alerts).0
    unfolding conclude
    conclude-IsKeyed limit seen alerts k =
        elim (Bool-cases (exceeds (num_active env ar ts seen alerts) limit)) [
          | inl over ↦ rw (over, conclude) (empty-IsKeyed ar.rule_id)
          | inr within ↦
              rw (within, conclude)
                (sweep-IsKeyed ar.rule_id (λ id a. some (stamp_one env ar ts a))
                  (settle env ar ts seen alerts) (λ id. stamp_keeps)
                  (sweep-IsKeyed ar.rule_id (λ id a. (settle_one env ar ts (member id seen) a).0)
                    alerts (λ id. settle_keeps (member id seen)) k))
        ]

    pub answer-IsKeyed :
        (limit : ℤ) (rows : List (Metric F)) (e : Option Text)
        → IsKeyed ar.rule_id ar.alerts
        → IsKeyed ar.rule_id (answer env ar ts limit rows e).0
    unfolding answer
    answer-IsKeyed limit rows (some e) k = k
    answer-IsKeyed limit rows none k =
        let purged = sweep (λ id a. purge_one ts a) ar.alerts in
        let looped = observe_rows env ar ts rows [] purged in
        let k' =
          observe-IsKeyed rows [] purged (
            sweep-IsKeyed ar.rule_id (λ id a. purge_one ts a) ar.alerts (λ id. purge_keeps ts) k) in
        elim (Bool-cases (exceeds (length rows) limit)) [
          | inl over ↦ rw (over, answer) k
          | inr within ↦ elim (Option-cases looped.2) [
            | inl ended ↦
                rw (within, answer, ended, process_rows)
                  (conclude-IsKeyed limit looped.1 looped.0 k')
            | inr (s, stopped) ↦ rw (within, answer, stopped, process_rows) k'
          ]
        ]

    -- Every evaluation, whether it returns alerts, an error or panics, leaves the rule with one
    -- instance for each identity, each filed under its own identity and belonging to the rule.
    pub exec-IsKeyed :
        (limit : ℤ) (start : Time) (duration : Duration)
        → IsKeyed ar.rule_id ar.alerts
        → IsKeyed ar.rule_id (exec env ar ts limit start duration).0.alerts
    unfolding exec
    exec-IsKeyed limit start duration k = elim (outcome_cases (env.query ar.querier ar.expr ts)) [
      | inl (p, e) ↦ rw (e, exec) k
      | inr (rows, o, e) ↦ rw (e, exec) (answer-IsKeyed limit rows o k)
    ]
