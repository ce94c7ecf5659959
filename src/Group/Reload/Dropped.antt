-- ===== src/Group/Reload/Dropped.antt =====
-- The rules that a reload of a group drops (`updateWith` of rule/group.go).
use chalert.Prelude.{
  ℕ, ◌≡◌, refl, inl, inr, true, false, List, [], ◌∷◌, Option-cases, Map, lookup, delete,
  lookup-delete, nat_eq, arith, if◌then◌else◌,
}
use chalert.Rule.Instance.{AlertingRule}
use chalert.Group.{Group, register, keep_rules, update_with, has_rule}
use chalert.Group.Reload.{
  is_some, IsRegistry, IsFresh, delete-IsRegistry, register-IsRegistry, is_some-register,
  lookup-key,
}

module _ {F : Type 0} where
  -- No two rules have one identity.
  abbrev HasDistinctRules : List (AlertingRule F) → Type 0
  HasDistinctRules [] = Unit
  HasDistinctRules (r ∷ rest) = (has_rule r.rule_id rest ≡ false) × HasDistinctRules rest

  -- The rules of the first list whose identity no rule of the second has.
  abbrev pub without : List (AlertingRule F) → List (AlertingRule F) → List (AlertingRule F)
  without [] rules = []
  without (r ∷ rest) rules =
      let others = without rest rules in if has_rule r.rule_id rules then others else r ∷ others

  keep_rules-dropped :
      (rules new_rules : List (AlertingRule F)) (m : Map ℕ (AlertingRule F))
      → HasDistinctRules rules
      → IsRegistry m
      → ((id : ℕ) → has_rule id rules ≡ true → is_some (lookup id m) ≡ has_rule id new_rules)
      → (keep_rules rules m).1 ≡ without rules new_rules
  unfolding keep_rules has_rule
  keep_rules-dropped [] new_rules m d h agree = refl
  keep_rules-dropped (r ∷ rest) new_rules m d h agree = elim (Option-cases (lookup r.rule_id m)) [
    | inl e ↦
        let found = agree r.rule_id (ground arith) in
        let rec = keep_rules-dropped rest new_rules m d.1 h (λ id k. agree id (ground arith)) in
        ground (arith, e, found, rec)
    | inr (nr, e) ↦
        let key : nr.rule_id ≡ r.rule_id = lookup-key r.rule_id nr m h e in
        let found = agree r.rule_id (ground arith) in
        let rec =
          keep_rules-dropped rest new_rules (delete nr.rule_id m) d.1
            (delete-IsRegistry nr.rule_id m h)
            (λ id k.
              ground (arith, agree id (ground arith), lookup-delete nr.rule_id id m, d.0, key)) in
        ground (arith, e, found, rec)
  ]

  -- When no two rules of a group have one identity, and the rules of the new group have no alerts
  -- yet, a reload drops exactly the rules whose identity no new rule has, in their order.
  pub update_with-dropped :
      (g ng : Group F)
      → HasDistinctRules g.rules
      → IsFresh ng.rules
      → let (after, dropped) = update_with g ng in dropped ≡ without g.rules ng.rules
  unfolding update_with lookup
  update_with-dropped g ng d f =
      keep_rules-dropped g.rules ng.rules (register ng.rules []) d
        (register-IsRegistry ng.rules [] f tt)
        (λ id k. ground (arith, is_some-register id ng.rules []))
