-- ===== src/Config/Identity/Complete.antt =====
-- When `NormalizeRuleIDs` of config.go succeeds.
use chalert.Prelude.{
  ℕ, ◌≡◌, ◌≢◌, ◌↔◌, refl, inl, inr, List, [], ◌∷◌, map, none, Text, Map, lookup, insert, nat_eq,
  text_Eq, text_eq_iff, lookup-insert, All, arith, Option-cases,
}
use chalert.Config.{Rule, Group, rule_name}
use chalert.Config.Identity.{
  QueryHash, hashed, ok, cached_hash, claim_id, normalize_rules, normalize_groups,
  normalize_rule_ids, hash_rule_with_expr_hash,
}
use chalert.Config.Identity.Normalized.{
  answer_or_zero, with_id, with_ids, HasDistinctIds, IsFaithful, IsUnclaimed, >>=-ok,
  cached_hash_lem, normalize_rules_lem, normalize_rule_ids_sound,
}

-- The query answers for the rule's expression.
abbrev pub IsAnswered : QueryHash → Rule → Type 0
IsAnswered ask r = ask r.expr ≡ hashed (answer_or_zero (ask r.expr))

cached_hash_total :
    (ask : QueryHash) (group : Text) (r : Rule) (cache : Map Text ℕ)
    → IsFaithful ask cache
    → IsAnswered ask r
    → (c : Map Text ℕ) × (cached_hash ask group r cache ≡ ok (answer_or_zero (ask r.expr), c))
      × IsFaithful ask c
unfolding cached_hash
cached_hash_total ask group r cache good a = elim (Option-cases (lookup r.expr cache)) [
  | inl absent ↦ (
    insert r.expr (answer_or_zero (ask r.expr)) cache,
    ground arith,
    λ x k q. ground (
      arith,
      good x k,
      lookup-insert r.expr x (answer_or_zero (ask r.expr)) cache,
      text_eq_iff r.expr x,
    ),
  )
  | inr (h, found) ↦ (cache, ground (arith, good r.expr h found), good)
]

claim_id_free :
    (group : Text) (r : Rule) (id : ℕ) (seen : Map ℕ Text)
    → lookup id seen ≡ none
    → claim_id group r id seen ≡ ok (insert id (rule_name r) seen)
unfolding claim_id
claim_id_free group r id seen h = ground arith

-- One more claimed identity that no later rule has.
IsUnclaimed-insert :
    (id : ℕ) (n : Text) (seen : Map ℕ Text) (rs : List Rule)
    → IsUnclaimed seen rs
    → All (λ s. s.id ≢ id) rs
    → IsUnclaimed (insert id n seen) rs
IsUnclaimed-insert id n seen [] u d = tt
IsUnclaimed-insert id n seen (r ∷ rs) u d = (
  ground (arith, u.0, d.0, lookup-insert id r.id n seen),
  IsUnclaimed-insert id n seen rs u.1 d.1,
)

IsUnclaimed-empty : (rs : List Rule) → IsUnclaimed [] rs
unfolding lookup
IsUnclaimed-empty [] = tt
IsUnclaimed-empty (r ∷ rs) = (refl, IsUnclaimed-empty rs)

normalize_rules_total :
    (ask : QueryHash) (group : Text) (rs : List Rule) (seen : Map ℕ Text) (cache : Map Text ℕ)
    → IsFaithful ask cache
    → All (IsAnswered ask) rs
    → IsUnclaimed seen (map (with_id ask) rs)
    → HasDistinctIds (map (with_id ask) rs)
    → (c : Map Text ℕ) × (normalize_rules ask group rs seen cache ≡ ok (map (with_id ask) rs, c))
      × IsFaithful ask c
unfolding normalize_rules
normalize_rules_total ask group [] seen cache good a u d = (cache, refl, good)
normalize_rules_total ask group (r ∷ rs) seen cache good a u d =
    let (c, first, good') = cached_hash_total ask group r cache good a.0 in
    let id = (with_id ask r).id in
    let seen' = insert id (rule_name r) seen in
    let (c', rest, good'') =
      normalize_rules_total ask group rs seen' c good' a.1
        (IsUnclaimed-insert id (rule_name r) seen (map (with_id ask) rs) u.1 d.0) d.1 in
    (c', rw (first, claim_id_free group r id seen u.0, rest), good'')

normalize_groups_total :
    (ask : QueryHash) (gs : List Group) (cache : Map Text ℕ)
    → IsFaithful ask cache
    → All (λ g. All (IsAnswered ask) g.rules) gs
    → All (λ g. HasDistinctIds g.rules) (map (with_ids ask) gs)
    → normalize_groups ask gs cache ≡ ok (map (with_ids ask) gs)
unfolding normalize_groups
normalize_groups_total ask [] cache good a d = refl
normalize_groups_total ask (g ∷ gs) cache good a d =
    let (c, first, good') =
      normalize_rules_total ask g.name g.rules [] cache good a.0
        (IsUnclaimed-empty (map (with_id ask) g.rules)) d.0 in
    rw (first, normalize_groups_total ask gs c good' a.1 d.1)

-- If the query answers for every expression and the identities that result differ within each
-- group, then `NormalizeRuleIDs` succeeds with exactly these identities.
normalize_rule_ids_complete :
    (ask : QueryHash) (gs : List Group)
    → All (λ g. All (IsAnswered ask) g.rules) gs
    → All (λ g. HasDistinctIds g.rules) (map (with_ids ask) gs)
    → normalize_rule_ids ask gs ≡ ok (map (with_ids ask) gs)
unfolding normalize_rule_ids lookup
normalize_rule_ids_complete ask gs a d = normalize_groups_total ask gs [] (λ e h q. cc) a d

-- A loop that returns has had an answer for each of its rules.
normalize_rules-IsAnswered :
    (ask : QueryHash) (group : Text) (rs : List Rule) (seen : Map ℕ Text) (cache : Map Text ℕ)
    (done : List Rule × Map Text ℕ)
    → IsFaithful ask cache
    → normalize_rules ask group rs seen cache ≡ ok done
    → All (IsAnswered ask) rs
unfolding normalize_rules
normalize_rules-IsAnswered ask group [] seen cache done good p = tt
normalize_rules-IsAnswered ask group (r ∷ rs) seen cache done good p =
    let ((h, cache'), first, p') = >>=-ok (cached_hash ask group r cache) _ p in
    let (seen', second, p'') = >>=-ok (claim_id group r (hash_rule_with_expr_hash h r) seen) _ p' in
    let (rest, third, last) = >>=-ok (normalize_rules ask group rs seen' cache') _ p'' in
    let one = cached_hash_lem ask group r cache cache' h good first in
    (rw one.0 refl, normalize_rules-IsAnswered ask group rs seen' cache' rest one.1 third)

normalize_groups-IsAnswered :
    (ask : QueryHash) (gs : List Group) (cache : Map Text ℕ) (done : List Group)
    → IsFaithful ask cache
    → normalize_groups ask gs cache ≡ ok done
    → All (λ g. All (IsAnswered ask) g.rules) gs
unfolding normalize_groups
normalize_groups-IsAnswered ask [] cache done good p = tt
normalize_groups-IsAnswered ask (g ∷ gs) cache done good p =
    let ((rules, cache'), first, p') = >>=-ok (normalize_rules ask g.name g.rules [] cache) _ p in
    let (rest, second, last) = >>=-ok (normalize_groups ask gs cache') _ p' in
    let one = normalize_rules_lem ask g.name g.rules [] cache (rules, cache') good first in
    (
      normalize_rules-IsAnswered ask g.name g.rules [] cache (rules, cache') good first,
      normalize_groups-IsAnswered ask gs cache' rest one.1 second,
    )

-- `NormalizeRuleIDs` succeeds exactly if the query answers for every expression and the identities
-- differ within each group, where each rule then carries the identity made of the query's hash of its
-- own expression, its name and its labels, and all else is as before.
pub normalize_rule_ids_iff :
    (ask : QueryHash) (gs done : List Group)
    → (normalize_rule_ids ask gs ≡ ok done) ↔ (
        All (λ g. All (IsAnswered ask) g.rules) gs
        × (done ≡ map (with_ids ask) gs)
        × All (λ g. HasDistinctIds g.rules) done)
unfolding normalize_rule_ids lookup
normalize_rule_ids_iff ask gs done = (
  λ p.
      let sound = normalize_rule_ids_sound ask gs done p in
      (normalize_groups-IsAnswered ask gs [] done (λ e h q. cc) p, sound.0, sound.1),
  λ (answered, same, distinct).
      rw same (normalize_rule_ids_complete ask gs answered (rw same at distinct)),
)
