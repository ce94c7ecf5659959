-- ===== src/Config/Validation.antt =====
-- `Rule.Validate` and `Group.Validate` of config.go.
pub mod Exact
use chalert.Prelude.{
  ℕ, ◌-◌, Bool, true, false, not, ◌&&◌, ◌||◌, List, [], ◌∷◌, ◌++◌, Option, none, some, Text,
  is_empty, codes, Map, lookup, insert, nat_eq, ℤ, pos, ltb_ℤ, ltb, leb, length, map, ◌==◌,
  if◌then◌else◌,
}
use mathlib.Core.List.{reverse}
use chalert.Config.{Rule, Group, rule_name, is_alerting, is_recording}
use chalert.Config.Identity.{is_space}

pub data RuleError : Type 0 where
  no_kind two_kinds empty_expr recording_annotations recording_for : RuleError
  not_a_query : Text → RuleError

pub data GroupError : Type 0 where
  no_name negative_interval negative_concurrency negative_limit : GroupError
  invalid_rule : Text → RuleError → GroupError
  duplicate_rule : Text → GroupError

-- `strings.TrimSpace` on ASCII bytes.
trim_left : Text → Text
trim_left [] = []
trim_left (c ∷ s) = let rest = trim_left s in if is_space c then rest else c ∷ s

trim_space : Text → Text
unfolding trim_left is_space
trim_space s = reverse (trim_left (reverse (trim_left s)))

-- `strings.ToUpper` on ASCII bytes.
upper : ℕ → ℕ
upper c = if leb b'a' c && leb c b'z' then c - 32 else c

pub has_prefix : Text → Text → Bool
has_prefix s [] = true
has_prefix [] (d ∷ p) = false
has_prefix (c ∷ s) (d ∷ p) = c == d && has_prefix s p

-- The basic test on the SQL text.
unfoldable pub is_query : Text → Bool
unfolding trim_space upper has_prefix
is_query expr =
    let expr_upper = map upper (trim_space expr) in
    has_prefix expr_upper (codes "SELECT") || has_prefix expr_upper (codes "WITH")

-- `none` is success.
unfoldable pub validate_rule : Rule → Option RuleError
unfolding is_recording
validate_rule r =
    if is_empty r.alert && is_empty r.record_name
    then some no_kind
    else if not (is_empty r.alert) && not (is_empty r.record_name)
    then some two_kinds
    else if is_empty r.expr
    then some empty_expr
    else if is_recording r && ltb 0 (length r.annotations)
    then some recording_annotations
    else if is_recording r && ltb_ℤ (pos 0) r.for_dur
    then some recording_for
    else if not (is_query r.expr)
    then some (not_a_query r.expr)
    else none

-- The test of one rule against those before it.
check_rule : Map ℕ (Unit {0}) → Rule → Option GroupError
check_rule unique_rules r = elim (validate_rule r) [
  | some e ↦ some (invalid_rule (rule_name r) e)
  | none ↦ elim (lookup r.id unique_rules) [
    | some u ↦ some (duplicate_rule (rule_name r))
    | none ↦ none
  ]
]

validate_rules : Map ℕ (Unit {0}) → List Rule → Option GroupError
unfolding check_rule
validate_rules unique_rules [] = none
validate_rules unique_rules (r ∷ rs) =
    let rest = validate_rules (insert r.id tt unique_rules) rs in
    elim (check_rule unique_rules r) [ some e ↦ some e | none ↦ rest ]

abbrev is_negative : Option ℤ → Bool
is_negative none = false
is_negative (some n) = ltb_ℤ n (pos 0)

unfoldable pub validate_group : Group → Option GroupError
unfolding validate_rules
validate_group g =
    if is_empty g.name
    then some no_name
    else if ltb_ℤ g.interval (pos 0)
    then some negative_interval
    else if ltb_ℤ g.concurrency (pos 0)
    then some negative_concurrency
    else if is_negative g.limit
    then some negative_limit
    else validate_rules [] g.rules
