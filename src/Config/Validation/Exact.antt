-- ===== src/Config/Validation/Exact.antt =====
-- Exactly which groups `Group.Validate` of config.go accepts.
use chalert.Prelude.{
  ℕ, ◌≡◌, ◌≢◌, ◌⊎◌, ◌↔◌, refl, true, false, List, [], ◌∷◌, Option, none, some, Text, is_empty, Map,
  lookup, insert, nat_eq, lookup-insert, ℤ, pos, ◌≤ℤ◌, ltb, length, All, arith,
}
use chalert.Config.{Rule, Group}
use chalert.Config.Identity.Normalized.{HasDistinctIds}
use chalert.Config.Validation.{
  is_query, validate_rule, check_rule, validate_rules, is_negative, validate_group,
}

-- One kind, a query, and for a recording rule no annotations and no `for`.
pub record IsValidRule (r : Rule) : Type 0 where
  pub kind :
      ((r.alert ≢ []) × (r.record_name ≡ []))
      ⊎ ((r.alert ≡ []) × (r.record_name ≢ []) × (r.annotations ≡ []) × (r.for_dur ≤ℤ pos 0))
  pub has_expr : r.expr ≢ []
  pub queries : is_query r.expr ≡ true

pub record IsValidGroup (g : Group) : Type 0 where
  pub named : g.name ≢ []
  pub interval : pos 0 ≤ℤ g.interval
  pub concurrency : pos 0 ≤ℤ g.concurrency
  pub limit : (n : ℤ) → g.limit ≡ some n → pos 0 ≤ℤ n
  pub rules : All IsValidRule g.rules
  pub distinct : HasDistinctIds g.rules

is_empty_iff : (s : Text) → (is_empty s ≡ true) ↔ (s ≡ [])
is_empty_iff [] = ground arith
is_empty_iff (c ∷ s) = ground arith

no_entries : (m : Map Text Text) → (ltb 0 (length m) ≡ false) ↔ (m ≡ [])
no_entries [] = ground arith
no_entries (p ∷ m) = ground arith

validate_rule_sound : (r : Rule) → validate_rule r ≡ none → IsValidRule r
unfolding validate_rule
validate_rule_sound r h = record {
  kind = ground (arith, is_empty_iff r.alert, is_empty_iff r.record_name, no_entries r.annotations);
  has_expr = ground (arith, is_empty_iff r.expr);
  queries = ground arith;
}

validate_rule_complete : (r : Rule) → IsValidRule r → validate_rule r ≡ none
unfolding validate_rule
validate_rule_complete r v = ground (
  arith,
  is_empty_iff r.alert,
  is_empty_iff r.record_name,
  is_empty_iff r.expr,
  no_entries r.annotations,
)

-- No rule of the list is among those seen before.
abbrev AreNew : Map ℕ (Unit {0}) → List Rule → Type 0
AreNew seen rs = All (λ r. lookup r.id seen ≡ none) rs

new_insert :
    (id : ℕ) (seen : Map ℕ (Unit {0})) (rs : List Rule)
    → AreNew (insert id tt seen) rs ↔ (AreNew seen rs × All (λ s. s.id ≢ id) rs)
new_insert id seen [] = (λ h. (tt, tt), λ h. tt)
new_insert id seen (r ∷ rs) = (
  λ h.
      let rest = (new_insert id seen rs).0 h.1 in
      (
        (ground (arith, h.0, lookup-insert id r.id tt seen), rest.0),
        (λ e. ground (arith, h.0, lookup-insert id r.id tt seen), rest.1),
      ),
  λ h. (
    ground (arith, h.0.0, h.1.0, lookup-insert id r.id tt seen),
    (new_insert id seen rs).1 (h.0.1, h.1.1),
  ),
)

check_rule_iff :
    (seen : Map ℕ (Unit {0})) (r : Rule)
    → (check_rule seen r ≡ none) ↔ (IsValidRule r × (lookup r.id seen ≡ none))
unfolding check_rule
check_rule_iff seen r = (
  λ h. (validate_rule_sound r (ground arith), ground arith),
  λ h. ground (arith, validate_rule_complete r h.0),
)

validate_rules_iff :
    (seen : Map ℕ (Unit {0})) (rs : List Rule)
    → (validate_rules seen rs ≡ none) ↔ (All IsValidRule rs × AreNew seen rs × HasDistinctIds rs)
unfolding validate_rules
validate_rules_iff seen [] = (λ h. (tt, tt, tt), λ h. refl)
validate_rules_iff seen (r ∷ rs) = (
  λ h.
      let one = (check_rule_iff seen r).0 (ground arith) in
      let rest = (validate_rules_iff (insert r.id tt seen) rs).0 (ground arith) in
      let new = (new_insert r.id seen rs).0 rest.1 in
      ((one.0, rest.0), (one.1, new.0), (new.1, rest.2)),
  λ h.
      let one = (check_rule_iff seen r).1 (h.0.0, h.1.0) in
      let new = (new_insert r.id seen rs).1 (h.1.1, h.2.0) in
      let rest = (validate_rules_iff (insert r.id tt seen) rs).1 (h.0.1, new, h.2.1) in
      ground (arith, one, rest),
)

all_new : (rs : List Rule) → AreNew [] rs
unfolding lookup
all_new [] = tt
all_new (r ∷ rs) = (refl, all_new rs)

not_negative : (l : Option ℤ) → ((n : ℤ) → l ≡ some n → pos 0 ≤ℤ n) → is_negative l ≡ false
not_negative none h = refl
not_negative (some n) h = ground (arith, h n refl)

-- `Group.Validate` returns nil exactly when the group has a name, its interval, concurrency and
-- limit are not negative, each rule is either an alerting or a recording rule with a SELECT or WITH
-- expression (a recording rule without annotations and `for`), and no two rules share an identity.
pub validate_group_iff : (g : Group) → (validate_group g ≡ none) ↔ IsValidGroup g
unfolding validate_group
validate_group_iff g = (
  λ h.
      let rules = (validate_rules_iff [] g.rules).0 (ground arith) in
      record {
        named = ground (arith, is_empty_iff g.name);
        interval = ground arith;
        concurrency = ground arith;
        limit = λ n e. ground arith;
        rules = rules.0;
        distinct = rules.2;
      },
  λ v.
      let rules = (validate_rules_iff [] g.rules).1 (v.rules, all_new g.rules, v.distinct) in
      ground (
        arith,
        is_empty_iff g.name,
        v.named,
        v.interval,
        v.concurrency,
        rules,
        not_negative g.limit v.limit,
      ),
)
