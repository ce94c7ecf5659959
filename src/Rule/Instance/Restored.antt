-- ===== src/Rule/Instance/Restored.antt =====
-- `Restore` of rule/rule.go.
use chalert.Prelude.{
  ℕ, ◌≡◌, refl, ◌∙◌, ◌&&◌, ◌==◌, ==_iff, List, [], ◌∷◌, Option, none, some, lookup, lookup-insert,
  nat_eq, arith, if◌then◌else◌,
}
use chalert.Rule.Instance.{
  AlertInstance, Alerts, AlertingRule, is_active, restore_one, restore_all, restore,
}

module _ {F : Type 0} where
  -- The last instance of the rule, pending or firing, that the restored state has under an identity.
  abbrev pub last_claim : ℕ → ℕ → List (AlertInstance F) → Option (AlertInstance F)
  last_claim rule_id id [] = none
  last_claim rule_id id (a ∷ rest) = elim (last_claim rule_id id rest) [
    | some b ↦ some b
    | none ↦ if a.rule_id == rule_id && (a.id == id && is_active a.state) then some a else none
  ]

  abbrev pub or_else :
      Option (AlertInstance F) → Option (AlertInstance F) → Option (AlertInstance F)
  or_else none old = old
  or_else (some a) old = some a

  lookup-restore_one :
      (rule_id id : ℕ) (a : AlertInstance F) (alerts : Alerts F)
      → lookup id (restore_one rule_id a alerts) ≡ (
          if a.rule_id == rule_id && (a.id == id && is_active a.state)
          then some a
          else lookup id alerts)
  unfolding restore_one
  lookup-restore_one rule_id id a alerts =
      ground (arith, lookup-insert a.id id a alerts, ==_iff a.id id)

  lookup-restore_all :
      (rule_id id : ℕ) (instances : List (AlertInstance F)) (alerts : Alerts F)
      → lookup id (restore_all rule_id instances alerts)
        ≡ or_else (last_claim rule_id id instances) (lookup id alerts)
  unfolding restore_all
  lookup-restore_all rule_id id [] alerts = refl
  lookup-restore_all rule_id id (a ∷ rest) alerts =
      lookup-restore_all rule_id id rest (restore_one rule_id a alerts)
      ∙ ground (arith, lookup-restore_one rule_id id a alerts)

  -- After a restart a rule holds, under each identity, the last pending or firing instance of its
  -- own that the saved state has there, and otherwise what it held before.
  pub lookup-restore :
      (instances : List (AlertInstance F)) (ar : AlertingRule F) (id : ℕ)
      → lookup id (restore instances ar).alerts
        ≡ or_else (last_claim ar.rule_id id instances) (lookup id ar.alerts)
  unfolding restore
  lookup-restore instances ar id = lookup-restore_all ar.rule_id id instances ar.alerts
