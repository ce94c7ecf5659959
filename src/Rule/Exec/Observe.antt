-- ===== src/Rule/Exec/Observe.antt =====
-- The loop of `Exec` over the rows (rule/rule.go), when it runs to its end.
use chalert.Prelude.{
  ℕ, ◌≡◌, ◌≢◌, refl, sym, ◌∙◌, ap, subst, inl, inr, Bool, true, false, ◌||◌, List, [], ◌∷◌, Option,
  none, some, Text, Map, lookup, insert, nat_eq, lookup-insert, insert-IsDistinct, IsDistinct, ◌==◌,
  ==_iff, Bool-cases, arith, if◌then◌else◌,
}
use native.Mathlib.Decide.{ℕ_discrete}
use chalert.Time.{Time}
use chalert.Datasource.{Metric}
use chalert.Rule.Instance.{AlertInstance, Alerts, AlertingRule}
use chalert.Rule.Labels.{build_labels, hash_labels}
use chalert.Rule.Exec.{Env, Stop, duplicate, no_value, touch, member, observe_one, observe_rows}

module _ {F : Type 0} where
  abbrev pub labels_of : AlertingRule F → Metric F → Map Text Text
  labels_of ar m = build_labels ar.name ar.labels m.labels

  -- The identity of the instance that a row stands for.
  abbrev pub id_of : AlertingRule F → Metric F → ℕ
  id_of ar m = hash_labels (labels_of ar m)

  abbrev pub value_or : F → List F → F
  value_or d [] = d
  value_or d (v ∷ vs) = v

  abbrev pub HasValue : Metric F → Type 0
  HasValue m = m.values ≢ []

  -- The first row with an identity.
  unfoldable pub row_of : AlertingRule F → ℕ → List (Metric F) → Option (Metric F)
  row_of ar id [] = none
  row_of ar id (m ∷ ms) = if id_of ar m == id then some m else row_of ar id ms

  abbrev pub is_some_row : Option (Metric F) → Bool
  is_some_row none = false
  is_some_row (some m) = true

  module _ (env : Env F) (ar : AlertingRule F) (ts : Time) where
    -- What a row does to the instance that it stands for.
    abbrev pub after_row :
        ℕ → Option (Metric F) → Option (AlertInstance F) → Option (AlertInstance F)
    after_row id none old = old
    after_row id (some m) old =
        some (observe_one env ar ts m (labels_of ar m) id (value_or env.float_zero m.values) old)

    -- The three ways on at a row.
    pub observe_cases :
        (P : Alerts F × List ℕ × Option Stop → Type 0) (m : Metric F) (ms : List (Metric F))
        (seen : List ℕ) (alerts : Alerts F) (vs : List F)
        → m.values ≡ vs
        → let id = id_of ar m in
          let old = lookup id alerts in
          (member id seen ≡ true → P (alerts, seen, some (duplicate (labels_of ar m))))
          → (m.values ≡ [] → P (touch env ar ts id old alerts, id ∷ seen, some no_value))
          → ((v : F)
              → member id seen ≡ false
              → HasValue m
              → P (
                  observe_rows env ar ts ms
                    (id ∷ seen)
                    (insert id (observe_one env ar ts m (labels_of ar m) id v old) alerts)))
          → P (observe_rows env ar ts (m ∷ ms) seen alerts)
    unfolding observe_rows
    observe_cases P m ms seen alerts [] e dup bad next =
        elim (Bool-cases (member (id_of ar m) seen)) [
          | inl hit ↦ rw (hit, observe_rows) (dup hit)
          | inr miss ↦ rw (miss, e, observe_rows) (bad e)
        ]
    observe_cases P m ms seen alerts (v ∷ vs) e dup bad next =
        elim (Bool-cases (member (id_of ar m) seen)) [
          | inl hit ↦ rw (hit, observe_rows) (dup hit)
          | inr miss ↦ rw (miss, e, observe_rows) (next v miss (λ q. cc (e, q)))
        ]

    abbrev step_alerts : Metric F → Alerts F → Alerts F
    step_alerts m alerts =
        insert (id_of ar m)
          (observe_one env ar ts m (labels_of ar m) (id_of ar m) (value_or env.float_zero m.values)
            (lookup (id_of ar m) alerts))
          alerts

    observe_step_values :
        (m : Metric F) (ms : List (Metric F)) (seen : List ℕ) (alerts : Alerts F) (vs : List F)
        → m.values ≡ vs
        → member (id_of ar m) seen ≡ false
        → (observe_rows env ar ts (m ∷ ms) seen alerts).2 ≡ none
        → HasValue m
          × (observe_rows env ar ts (m ∷ ms) seen alerts
              ≡ observe_rows env ar ts ms (id_of ar m ∷ seen) (step_alerts m alerts))
    unfolding observe_rows
    observe_step_values m ms seen alerts [] e p h = ground arith
    observe_step_values m ms seen alerts (v ∷ vs) e p h = (λ q. cc (e, q), ground arith)

    -- One round of a loop that runs to its end.
    pub observe_step :
        (m : Metric F) (ms : List (Metric F)) (seen : List ℕ) (alerts : Alerts F)
        → (observe_rows env ar ts (m ∷ ms) seen alerts).2 ≡ none
        → (member (id_of ar m) seen ≡ false)
          × HasValue m
          × (observe_rows env ar ts (m ∷ ms) seen alerts
              ≡ observe_rows env ar ts ms (id_of ar m ∷ seen) (step_alerts m alerts))
    unfolding observe_rows
    observe_step m ms seen alerts h = elim (Bool-cases (member (id_of ar m) seen)) [
      | inl dup ↦ ground arith
      | inr new ↦
          let r = observe_step_values m ms seen alerts m.values refl new h in (new, r.0, r.1)
    ]

    -- An identity seen before has no row.
    seen_row_of :
        (id : ℕ) (ms : List (Metric F)) (seen : List ℕ) (alerts : Alerts F)
        → member id seen ≡ true
        → (observe_rows env ar ts ms seen alerts).2 ≡ none
        → row_of ar id ms ≡ none
    unfolding row_of
    seen_row_of id [] seen alerts s h = refl
    seen_row_of id (m ∷ ms) seen alerts s h =
        let r = observe_step m ms seen alerts h in
        let ih =
          seen_row_of id ms (id_of ar m ∷ seen) (step_alerts m alerts) (ground arith)
            (sym (ap (λ t. t.2) r.2) ∙ h) in
        ground (arith, r.0, ih, ==_iff (id_of ar m) id)

    -- What holds when the loop has run to its end.
    abbrev IsObserved :
        ℕ → List (Metric F) → List ℕ → Alerts F → Alerts F × List ℕ × Option Stop → Type 0
    IsObserved id ms seen alerts t =
        IsDistinct t.0
        × (lookup id t.0 ≡ after_row id (row_of ar id ms) (lookup id alerts))
        × (member id t.1 ≡ (is_some_row (row_of ar id ms) || member id seen))

    IsObserved-cons :
        (id : ℕ) (m : Metric F) (ms : List (Metric F)) (seen : List ℕ) (alerts : Alerts F)
        (t : Alerts F × List ℕ × Option Stop)
        → (id_of ar m ≡ id → row_of ar id ms ≡ none)
        → IsObserved id ms (id_of ar m ∷ seen) (step_alerts m alerts) t
        → IsObserved id (m ∷ ms) seen alerts t
    unfolding row_of
    IsObserved-cons id m ms seen alerts t none_later o = elim (ℕ_discrete (id_of ar m) id) [
      | yes e ↦
          let head : lookup id (step_alerts m alerts) ≡ after_row id (some m) (lookup id alerts) =
            subst (λ j. lookup j (step_alerts m alerts) ≡ after_row j (some m) (lookup j alerts)) e
              (ground (
                arith,
                lookup-insert (id_of ar m) (id_of ar m)
                    (observe_one env ar ts m (labels_of ar m) (id_of ar m)
                      (value_or env.float_zero m.values) (lookup (id_of ar m) alerts))
                    alerts,
              )) in
          let here : (id_of ar m == id) ≡ true = ground arith in
          (o.0, rw here (o.1 ∙ rw (none_later e) head), rw here (o.2 ∙ rw (none_later e, here)))
      | no ne ↦
          let away : (id_of ar m == id) ≡ false = ground arith in
          (
            o.0,
            rw away (
                o.1
                ∙ ap (after_row id (row_of ar id ms)) (
                    lookup-insert (id_of ar m) id
                      (observe_one env ar ts m (labels_of ar m) (id_of ar m)
                        (value_or env.float_zero m.values) (lookup (id_of ar m) alerts))
                      alerts
                    ∙ rw away)),
            rw away (o.2 ∙ rw away),
          )
    ]

    -- When the loop has run to its end: the alerts hold one entry for each identity, the instance of
    -- each row is as the row makes it, every other is as before, and the identities seen are those
    -- of the rows.
    pub observe_rows_lem :
        (id : ℕ) (ms : List (Metric F)) (seen : List ℕ) (alerts : Alerts F)
        → IsDistinct alerts
        → (observe_rows env ar ts ms seen alerts).2 ≡ none
        → IsObserved id ms seen alerts (observe_rows env ar ts ms seen alerts)
    observe_rows_lem id [] seen alerts d h = unfold row_of observe_rows in (d, refl, refl)
    observe_rows_lem id (m ∷ ms) seen alerts d h =
        let r = observe_step m ms seen alerts h in
        let h' = sym (ap (λ t. t.2) r.2) ∙ h in
        subst (IsObserved id (m ∷ ms) seen alerts) (sym r.2) (
          IsObserved-cons id m ms seen alerts
            (observe_rows env ar ts ms (id_of ar m ∷ seen) (step_alerts m alerts))
            (λ e. seen_row_of id ms (id_of ar m ∷ seen) (step_alerts m alerts) (ground arith) h')
            (observe_rows_lem id ms (id_of ar m ∷ seen) (step_alerts m alerts)
              (insert-IsDistinct _ _ alerts d) h'))
