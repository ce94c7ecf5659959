-- ===== src/Group/Reload.antt =====
-- A reload of a group (rule/group.go): which identities it has afterwards, and where its alerts go.
use mathlib.Core.List.{append_assoc, append-nil, Permᴰ}
use mathlib.Core.List.Permᴰ
use chalert.Prelude.{
  ℕ, ◌≡◌, refl, ap, sym, subst, ◌∙◌, inl, inr, Bool, true, false, Bool-cases, ◌==◌, ◌||◌, List, [],
  ◌∷◌, ◌++◌, map, All, Perm, append_exchange, Option, none, some, Option-cases, Map, lookup, insert,
  delete, lookup-insert, lookup-delete, nat_eq, arith, if◌then◌else◌,
}
use chalert.Rule.Instance.{AlertingRule, get_alerts}
use chalert.Group.{Group, register, keep_rules, redefine, update_with, alerts_of_rules, has_rule}
pub mod Dropped

abbrev pub is_some : {A : Type 0} → Option A → Bool
is_some none = false
is_some (some a) = true

module _ {F : Type 0} where
  -- A registry holds every rule under its identity, and none of the rules has an alert.
  abbrev pub IsRegistry : Map ℕ (AlertingRule F) → Type 0
  IsRegistry m = All (λ p. (p.1.rule_id ≡ p.0) × (p.1.alerts ≡ [])) m

  insert-IsRegistry :
      (r : AlertingRule F) (m : Map ℕ (AlertingRule F))
      → r.alerts ≡ []
      → IsRegistry m
      → IsRegistry (insert r.rule_id r m)
  unfolding insert
  insert-IsRegistry r [] e h = ((refl, e), tt)
  insert-IsRegistry r ((j, w) ∷ m) e h = elim (Bool-cases (j == r.rule_id)) [
    | inl c ↦ rw c ((refl, e), h.1)
    | inr c ↦ rw c (h.0, insert-IsRegistry r m e h.1)
  ]

  pub delete-IsRegistry :
      (id : ℕ) (m : Map ℕ (AlertingRule F)) → IsRegistry m → IsRegistry (delete id m)
  unfolding delete
  delete-IsRegistry id [] h = tt
  delete-IsRegistry id ((j, w) ∷ m) h = elim (Bool-cases (j == id)) [
    | inl c ↦ rw c (delete-IsRegistry id m h.1)
    | inr c ↦ rw c (h.0, delete-IsRegistry id m h.1)
  ]

  -- The rules of a new group have no alerts.
  abbrev pub IsFresh : List (AlertingRule F) → Type 0
  IsFresh rules = All (λ r. r.alerts ≡ []) rules

  pub register-IsRegistry :
      (rules : List (AlertingRule F)) (m : Map ℕ (AlertingRule F))
      → IsFresh rules
      → IsRegistry m
      → IsRegistry (register rules m)
  unfolding register
  register-IsRegistry [] m f h = h
  register-IsRegistry (r ∷ rest) m f h =
      register-IsRegistry rest (insert r.rule_id r m) f.1 (insert-IsRegistry r m f.0 h)

  keep_rules-IsRegistry :
      (rules : List (AlertingRule F)) (m : Map ℕ (AlertingRule F))
      → IsRegistry m
      → let (kept, dropped, left) = keep_rules rules m in IsRegistry left
  unfolding keep_rules
  keep_rules-IsRegistry [] m h = h
  keep_rules-IsRegistry (r ∷ rest) m h = elim (Option-cases (lookup r.rule_id m)) [
    | inl e ↦ rw (e, keep_rules) (keep_rules-IsRegistry rest m h)
    | inr (nr, e) ↦
        rw (e, keep_rules)
          (keep_rules-IsRegistry rest (delete nr.rule_id m) (delete-IsRegistry nr.rule_id m h))
  ]

  alerts-append :
      (xs ys : List (AlertingRule F))
      → alerts_of_rules (xs ++ ys) ≡ alerts_of_rules xs ++ alerts_of_rules ys
  unfolding alerts_of_rules
  alerts-append [] ys = refl
  alerts-append (x ∷ xs) ys =
      ap (λ l. get_alerts x ++ l) (alerts-append xs ys)
      ∙ sym (append_assoc (get_alerts x) (alerts_of_rules xs) (alerts_of_rules ys))

  alerts_of_registry :
      (m : Map ℕ (AlertingRule F)) → IsRegistry m → alerts_of_rules (map (λ p. p.1) m) ≡ []
  unfolding alerts_of_rules get_alerts
  alerts_of_registry [] h = refl
  alerts_of_registry ((j, r) ∷ m) h = rw h.0.1 (alerts_of_registry m h.1)

  keep_rules_alertsᴰ :
      (rules : List (AlertingRule F)) (m : Map ℕ (AlertingRule F))
      → let (kept, dropped, left) = keep_rules rules m in
        Permᴰ (alerts_of_rules rules) (alerts_of_rules kept ++ alerts_of_rules dropped)
  unfolding keep_rules alerts_of_rules redefine get_alerts
  keep_rules_alertsᴰ [] m = Permᴰ.nil
  keep_rules_alertsᴰ (r ∷ rest) m = elim (Option-cases (lookup r.rule_id m)) [
    | inl e ↦
        let (kept, dropped, left) = keep_rules rest m in
        rw (e, keep_rules)
          (Permᴰ.trans (Permᴰ.append_left (get_alerts r) (keep_rules_alertsᴰ rest m))
            (append_exchange (get_alerts r) (alerts_of_rules kept) (alerts_of_rules dropped)))
    | inr (nr, e) ↦
        let (kept, dropped, left) = keep_rules rest (delete nr.rule_id m) in
        rw (e, keep_rules)
          (subst (λ x. Permᴰ (get_alerts r ++ alerts_of_rules rest) x)
            (sym (append_assoc (get_alerts r) (alerts_of_rules kept) (alerts_of_rules dropped)))
            (Permᴰ.append_left (get_alerts r) (keep_rules_alertsᴰ rest (delete nr.rule_id m))))
  ]

  -- A reload loses no alert and makes none up: when the rules of the new group have no alerts yet,
  -- the alerts of the group before are, in some order, those of the group afterwards together with
  -- those of the rules that it dropped.
  pub update_with_keeps :
      (g ng : Group F)
      → IsFresh ng.rules
      → let (after, dropped) = update_with g ng in
        Perm (alerts_of_rules g.rules) (alerts_of_rules after.rules ++ alerts_of_rules dropped)
  unfolding update_with
  update_with_keeps g ng f =
      let registry = register ng.rules [] in
      let (kept, dropped, left) = keep_rules g.rules registry in
      let registered = register-IsRegistry ng.rules [] f tt in
      ∣ subst (λ x. Permᴰ (alerts_of_rules g.rules) (x ++ alerts_of_rules dropped))
        (sym (
          alerts-append kept (map (λ p. p.1) left)
          ∙ ap (λ l. alerts_of_rules kept ++ l)
              (alerts_of_registry left (keep_rules-IsRegistry g.rules registry registered))
          ∙ append-nil (alerts_of_rules kept)))
        (keep_rules_alertsᴰ g.rules registry) ∣₁

  has_rule-append :
      (id : ℕ) (xs ys : List (AlertingRule F))
      → has_rule id (xs ++ ys) ≡ has_rule id xs || has_rule id ys
  unfolding has_rule
  has_rule-append id [] ys = refl
  has_rule-append id (x ∷ xs) ys = ground (arith, has_rule-append id xs ys)

  has_rule_registry :
      (id : ℕ) (m : Map ℕ (AlertingRule F))
      → IsRegistry m
      → has_rule id (map (λ p. p.1) m) ≡ is_some (lookup id m)
  unfolding has_rule lookup
  has_rule_registry id [] h = refl
  has_rule_registry id ((j, r) ∷ m) h = ground (arith, h.0.0, has_rule_registry id m h.1)

  pub is_some-register :
      (id : ℕ) (rules : List (AlertingRule F)) (m : Map ℕ (AlertingRule F))
      → is_some (lookup id (register rules m)) ≡ has_rule id rules || is_some (lookup id m)
  unfolding has_rule register
  is_some-register id [] m = refl
  is_some-register id (r ∷ rest) m =
      ground
        (arith, is_some-register id rest (insert r.rule_id r m), lookup-insert r.rule_id id r m)

  pub lookup-key :
      (id : ℕ) (r : AlertingRule F) (m : Map ℕ (AlertingRule F))
      → IsRegistry m
      → lookup id m ≡ some r
      → r.rule_id ≡ id
  unfolding lookup
  lookup-key id r [] h e = ground arith
  lookup-key id r ((j, w) ∷ m) h e = ground (arith, h.0.0, lookup-key id r m h.1)

  keep_rules-has_rule :
      (id : ℕ) (rules : List (AlertingRule F)) (m : Map ℕ (AlertingRule F))
      → IsRegistry m
      → let (kept, dropped, left) = keep_rules rules m in
        has_rule id kept || is_some (lookup id left) ≡ is_some (lookup id m)
  unfolding keep_rules has_rule redefine
  keep_rules-has_rule id [] m h = refl
  keep_rules-has_rule id (r ∷ rest) m h = elim (Option-cases (lookup r.rule_id m)) [
    | inl e ↦ rw (e, keep_rules) (keep_rules-has_rule id rest m h)
    | inr (nr, e) ↦
        let key : nr.rule_id ≡ r.rule_id = lookup-key r.rule_id nr m h e in
        let rec =
          keep_rules-has_rule id rest (delete nr.rule_id m) (delete-IsRegistry nr.rule_id m h) in
        let gone = lookup-delete nr.rule_id id m in
        rw (e, keep_rules) (ground (arith, key, rec, gone, e))
  ]

  -- After a reload, whose new rules have no alerts yet, a group has a rule with an identity exactly
  -- when the new group has one.
  pub update_with-has_rule :
      (g ng : Group F) (id : ℕ)
      → IsFresh ng.rules
      → let (after, dropped) = update_with g ng in has_rule id after.rules ≡ has_rule id ng.rules
  unfolding update_with lookup
  update_with-has_rule g ng id f =
      let registry = register ng.rules [] in
      let (kept, dropped, left) = keep_rules g.rules registry in
      let registered = register-IsRegistry ng.rules [] f tt in
      ground (
        arith,
        has_rule-append id kept (map (λ p. p.1) left),
        has_rule_registry id left (keep_rules-IsRegistry g.rules registry registered),
        keep_rules-has_rule id g.rules registry registered,
        is_some-register id ng.rules [],
      )
