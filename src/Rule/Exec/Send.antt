-- ===== src/Rule/Exec/Send.antt =====
-- What `alertsToSend` of rule/rule.go returns, and the marks that it leaves.
use chalert.Prelude.{
  In, ℕ, ◌≡◌, ◌↔◌, sym, ap, ◌∙◌, subst, inl, inr, true, List, [], ◌∷◌, none, some, lookup, nat_eq,
  IsDistinct, ℤ, arith, Bool-cases, ◌==◌, ==_iff, if◌then◌else◌,
}
use chalert.Time.{Time, Duration}
use chalert.Datasource.{Metric}
use chalert.Rule.Instance.{AlertInstance, Alerts, AlertingRule}
use chalert.Rule.Exec.{Env, returned, to_send, is_due, alerts_to_send, exec}
use chalert.Rule.Exec.Observe.{row_of}
use chalert.Rule.Exec.Machine.{settled_step}
use chalert.Rule.Exec.Refines.{settled, process_sent, exec_answer, lookup-settled}

module _ {F : Type 0} (env : Env F) (ar : AlertingRule F) (ts : Time) where
  -- The copy of an instance that goes to the notifier.
  abbrev pub sent_copy : AlertInstance F → AlertInstance F
  sent_copy a = record a { last_sent = ts; evaluation_interval = ar.group_interval }

  -- A due instance of the map, and what is sent of it.
  abbrev SentFrom : Alerts F → AlertInstance F → Type 0
  SentFrom m b =
      (id : ℕ) × (a : AlertInstance F) × (lookup id m ≡ some a)
      × (is_due env ar ts a ≡ true)
      × (b ≡ sent_copy a)

  -- An entry that stands behind another is found.
  later :
      (id j : ℕ) (a c : AlertInstance F) (m : Alerts F)
      → lookup id m ≡ none
      → lookup j m ≡ some c
      → lookup j ((id, a) ∷ m) ≡ some c
  unfolding lookup
  later id j a c m absent found = ground (arith, ==_iff id j)

  sent_head :
      (id : ℕ) (a : AlertInstance F) (m : Alerts F) (b : AlertInstance F)
      → IsDistinct ((id, a) ∷ m)
      → is_due env ar ts a ≡ true
      → (In b (alerts_to_send env ar ts m) → SentFrom m b)
      → In b (sent_copy a ∷ alerts_to_send env ar ts m)
      → SentFrom ((id, a) ∷ m) b
  unfolding lookup
  sent_head id a m b d due ih (inl e) = (id, a, ground (arith, ==_iff id id), due, e)
  sent_head id a m b d due ih (inr h) =
      let r = ih h in (r.0, r.1, later id r.0 a r.1 m d.0 r.2, r.3, r.4)

  sent_sound :
      (m : Alerts F) (b : AlertInstance F)
      → IsDistinct m
      → In b (alerts_to_send env ar ts m)
      → SentFrom m b
  unfolding alerts_to_send
  sent_sound [] b d h = absurd h
  sent_sound ((id, a) ∷ m) b d h = elim (Bool-cases (is_due env ar ts a)) [
    | inl due ↦
        sent_head id a m b d due (sent_sound m b d.1)
          (subst (λ c. In b (if c then sent_copy a ∷ rest else rest)) due h)
    | inr waits ↦
        let r =
          sent_sound m b d.1 (subst (λ c. In b (if c then sent_copy a ∷ rest else rest)) waits h) in
        (r.0, r.1, later id r.0 a r.1 m d.0 r.2, r.3, r.4)
  ]
    where
      rest : List (AlertInstance F)
      rest = alerts_to_send env ar ts m

  sent_complete :
      (m : Alerts F) (id : ℕ) (a : AlertInstance F)
      → lookup id m ≡ some a
      → is_due env ar ts a ≡ true
      → In (sent_copy a) (alerts_to_send env ar ts m)
  unfolding alerts_to_send lookup
  sent_complete [] id a e due = cc
  sent_complete ((j, b) ∷ m) id a e due = elim (Bool-cases (j == id)) [
    | inl hit ↦
        let same : b ≡ a = ground arith in
        let due' : is_due env ar ts b ≡ true =
          subst (λ x. is_due env ar ts x ≡ true) (sym same) due in
        rw due' (inl (ap sent_copy (sym same)))
    | inr miss ↦
        let rest = sent_complete m id a (ground arith) due in
        elim (Bool-cases (is_due env ar ts b)) [ inl d ↦ rw d (inr rest) | inr w ↦ rw w rest ]
  ]

  module _ (limit : ℤ) (start : Time) (duration : Duration) (rows : List (Metric F)) where
    -- An evaluation that returns alerts sends exactly the copies of the due instances, stamped with
    -- the evaluation's time and the group's interval: nothing else, and none is left out.
    pub exec_sends :
        (out : List (AlertInstance F)) (b : AlertInstance F)
        → IsDistinct ar.alerts
        → env.query ar.querier ar.expr ts ≡ returned rows none
        → (exec env ar ts limit start duration).1 ≡ to_send out
        → In b out ↔ (
            (id : ℕ) × (a : AlertInstance F) × (settled_step env ar ts id
                (row_of ar id rows)
                (lookup id ar.alerts)
              ≡ some a)
            × (is_due env ar ts a ≡ true)
            × (b ≡ sent_copy a))
    exec_sends out b d q h =
        let p =
          process_sent env ar ts limit rows out
            (exec_answer env ar ts limit start duration rows out q h).1 in
        let s = lookup-settled env ar ts limit rows d p.0 in
        let m = settled env ar ts limit rows in
        (
          λ i.
              let r = sent_sound m b s.0 (subst (In b) p.2 i) in
              (r.0, r.1, sym (s.1 r.0) ∙ r.2, r.3, r.4),
          λ r. subst (In b) (sym p.2) (
              subst (λ x. In x (alerts_to_send env ar ts m)) (sym r.4)
                (sent_complete m r.0 r.1 (s.1 r.0 ∙ r.2) r.3)),
        )
