-- ===== src/Group/Keyed.antt =====
-- What every operation of a group (rule/group.go) keeps of the alerts of its rules.
use chalert.Prelude.{
  ℕ, ◌≡◌, refl, inl, inr, Bool-cases, ◌==◌, List, [], ◌∷◌, map, All, All-append, Option-cases, Text,
  Map, lookup, insert, delete, ==_iff, insert-All, delete-All, nat_eq,
}
use chalert.Time.{Duration}
use chalert.Config
use chalert.Config.{is_alerting}
use chalert.Rule.Instance.{
  AlertInstance, Alerts, AlertingRule, new_alerting_rule, restore, restore_one, restore_all,
  is_active,
}
use chalert.Rule.Exec.Invariant.{IsKeyed, insert-IsKeyed, empty-IsKeyed}
use chalert.Rule.Exec.Sound.{IsSound}
use chalert.Group.{
  Group, GroupOptions, build_rules, new_group, register, redefine, keep_rules, update_with,
  restore_state,
}

build_rules-IsSound :
    (F : Type 0) (name : Text) (interval : Duration) (external group : Map Text Text)
    (rules : List Config.Rule)
    → All IsSound (build_rules {F = F} name interval external group rules)
unfolding build_rules new_alerting_rule
build_rules-IsSound F name interval external group [] = tt
build_rules-IsSound F name interval external group (r ∷ rest) =
    let later = build_rules-IsSound F name interval external group rest in
    elim (Bool-cases (is_alerting r)) [
      | inl alerting ↦ rw alerting (empty-IsKeyed r.id, later)
      | inr recording ↦ rw recording later
    ]

pub new_group-IsSound :
    (F : Type 0) (duration_string : Duration → Text) (opts : GroupOptions) (cfg : Config.Group)
    → All IsSound (new_group {F = F} duration_string opts cfg).rules
unfolding new_group
new_group-IsSound F duration_string opts cfg =
    build_rules-IsSound F cfg.name _ opts.external_labels cfg.labels cfg.rules

module _ {F : Type 0} where
  restore_one-IsKeyed :
      (rule_id : ℕ) (inst : AlertInstance F) (alerts : Alerts F)
      → IsKeyed rule_id alerts
      → IsKeyed rule_id (restore_one rule_id inst alerts)
  unfolding restore_one
  restore_one-IsKeyed rule_id inst alerts k = elim (Bool-cases (inst.rule_id == rule_id)) [
    | inr other ↦ rw other k
    | inl own ↦ elim (Bool-cases (is_active inst.state)) [
      | inl active ↦
          rw (own, active)
            (insert-IsKeyed rule_id inst.id inst alerts refl ((==_iff inst.rule_id rule_id).0 own)
              k)
      | inr ended ↦ rw (own, ended) k
    ]
  ]

  restore_all-IsKeyed :
      (rule_id : ℕ) (instances : List (AlertInstance F)) (alerts : Alerts F)
      → IsKeyed rule_id alerts
      → IsKeyed rule_id (restore_all rule_id instances alerts)
  unfolding restore_all
  restore_all-IsKeyed rule_id [] alerts k = k
  restore_all-IsKeyed rule_id (inst ∷ rest) alerts k =
      restore_all-IsKeyed rule_id rest (restore_one rule_id inst alerts)
        (restore_one-IsKeyed rule_id inst alerts k)

  map-IsSound :
      (f : AlertingRule F → AlertingRule F) (rules : List (AlertingRule F))
      → ((r : AlertingRule F) → IsSound r → IsSound (f r))
      → All IsSound rules
      → All IsSound (map f rules)
  map-IsSound f [] keep h = tt
  map-IsSound f (r ∷ rest) keep h = (keep r h.0, map-IsSound f rest keep h.1)

  pub restore_state-IsSound :
      (instances : List (AlertInstance F)) (g : Group F)
      → All IsSound g.rules
      → All IsSound (restore_state instances g).rules
  unfolding restore_state restore
  restore_state-IsSound instances g h =
      map-IsSound (restore instances) g.rules
        (λ r. restore_all-IsKeyed r.rule_id instances r.alerts) h

  -- A registry of sound rules.
  abbrev AreSound : Map ℕ (AlertingRule F) → Type 0
  AreSound m = All (λ p. IsSound p.1) m

  register-AreSound :
      (rules : List (AlertingRule F)) (m : Map ℕ (AlertingRule F))
      → All IsSound rules
      → AreSound m
      → AreSound (register rules m)
  unfolding register
  register-AreSound [] m f h = h
  register-AreSound (r ∷ rest) m f h =
      register-AreSound rest (insert r.rule_id r m) f.1
        (insert-All (λ p. IsSound p.1) r.rule_id r m f.0 h)

  values-IsSound : (m : Map ℕ (AlertingRule F)) → AreSound m → All IsSound (map (λ p. p.1) m)
  values-IsSound [] h = tt
  values-IsSound (p ∷ m) h = (h.0, values-IsSound m h.1)

  keep_rules-IsSound :
      (rules : List (AlertingRule F)) (m : Map ℕ (AlertingRule F))
      → All IsSound rules
      → AreSound m
      → let (kept, dropped, left) = keep_rules rules m in All IsSound kept × AreSound left
  unfolding keep_rules redefine
  keep_rules-IsSound [] m f h = (tt, h)
  keep_rules-IsSound (r ∷ rest) m f h = elim (Option-cases (lookup r.rule_id m)) [
    | inl e ↦ rw (e, keep_rules) (keep_rules-IsSound rest m f.1 h)
    | inr (nr, e) ↦
        let later =
          keep_rules-IsSound rest (delete nr.rule_id m) f.1
            (delete-All (λ p. IsSound p.1) nr.rule_id m h) in
        rw (e, keep_rules) ((f.0, later.0), later.1)
  ]

  pub update_with-IsSound :
      (g ng : Group F)
      → All IsSound g.rules
      → All IsSound ng.rules
      → All IsSound (update_with g ng).0.rules
  unfolding update_with
  update_with-IsSound g ng h h' =
      let registry = register ng.rules [] in
      let (kept, dropped, left) = keep_rules g.rules registry in
      let both = keep_rules-IsSound g.rules registry h (register-AreSound ng.rules [] h' tt) in
      All-append IsSound kept (map (λ p. p.1) left) both.0 (values-IsSound left both.1)

  pub update_with-id : (g ng : Group F) → (update_with g ng).0.id ≡ g.id
  unfolding update_with
  update_with-id g ng = refl
