-- ===== src/Config/Identity/Normalized.antt =====
-- What a successful `NormalizeRuleIDs` of config.go returns.
use chalert.Prelude.{
  ℕ, ◌≡◌, ◌≢◌, refl, ap, subst, List, [], ◌∷◌, map, none, some, Text, Map, lookup, insert, nat_eq,
  text_Eq, text_eq_iff, lookup-insert, All, arith,
}
use chalert.Config.{Rule, Group, rule_name}
use chalert.Config.Identity.{
  Answer, QueryHash, hashed, refused, Result, ok, err, ◌>>=◌, cached_hash, claim_id,
  normalize_rules, normalize_groups, normalize_rule_ids, hash_rule_with_expr_hash,
}

-- The hash that the query gives, 0 if it fails.
abbrev pub answer_or_zero : Answer → ℕ
answer_or_zero (hashed h) = h
answer_or_zero (refused e) = 0

-- A rule under the identity that its own name, labels and normalized expression determine.
abbrev pub with_id : QueryHash → Rule → Rule
with_id ask r = record r { id = hash_rule_with_expr_hash (answer_or_zero (ask r.expr)) r }

abbrev pub with_ids : QueryHash → Group → Group
with_ids ask g = record g { rules = map (with_id ask) g.rules }

-- No two rules share an identity.
abbrev pub HasDistinctIds : List Rule → Type 0
HasDistinctIds [] = Unit {0}
HasDistinctIds (r ∷ rs) = All (λ s. s.id ≢ r.id) rs × HasDistinctIds rs

-- The cache holds what the query answers.
abbrev pub IsFaithful : QueryHash → Map Text ℕ → Type 0
IsFaithful ask cache = (e : Text) (h : ℕ) → lookup e cache ≡ some h → ask e ≡ hashed h

pub >>=-ok :
    {X Y : Type 0} (first : Result X) (rest : X → Result Y) {y : Y}
    → (first >>= rest) ≡ ok y
    → (x : X) × (first ≡ ok x) × (rest x ≡ ok y)
>>=-ok (err e) rest p = cc
>>=-ok (ok x) rest p = (x, refl, p)

pub cached_hash_lem :
    (ask : QueryHash) (group : Text) (r : Rule) (cache cache' : Map Text ℕ) (h : ℕ)
    → IsFaithful ask cache
    → cached_hash ask group r cache ≡ ok (h, cache')
    → (ask r.expr ≡ hashed h) × IsFaithful ask cache'
unfolding cached_hash
cached_hash_lem ask group r cache cache' h good p = (
  ground (arith, good r.expr h),
  λ e k q. ground (arith, good e k, lookup-insert r.expr e h cache, text_eq_iff r.expr e),
)

claim_id_lem :
    (group : Text) (r : Rule) (id : ℕ) (seen seen' : Map ℕ Text)
    → claim_id group r id seen ≡ ok seen'
    → (lookup id seen ≡ none) × (seen' ≡ insert id (rule_name r) seen)
unfolding claim_id
claim_id_lem group r id seen seen' p = ground arith

abbrev pub IsUnclaimed : Map ℕ Text → List Rule → Type 0
IsUnclaimed seen rs = All (λ r. lookup r.id seen ≡ none) rs

IsUnclaimed-of_insert :
    (id : ℕ) (n : Text) (seen : Map ℕ Text) (rs : List Rule)
    → IsUnclaimed (insert id n seen) rs
    → IsUnclaimed seen rs × All (λ s. s.id ≢ id) rs
IsUnclaimed-of_insert id n seen [] h = (tt, tt)
IsUnclaimed-of_insert id n seen (r ∷ rs) h =
    let rest = IsUnclaimed-of_insert id n seen rs h.1 in
    (
      (ground (arith, lookup-insert id r.id n seen), rest.0),
      (λ e. ground (arith, lookup-insert id r.id n seen), rest.1),
    )

ok-injective {ℓ} : {A : Type ℓ} {a b : A} → ok a ≡ ok b → a ≡ b
ok-injective h = cc

-- What the inner loop has done when it returns.
abbrev pub IsNormal : QueryHash → List Rule → Map ℕ Text → List Rule × Map Text ℕ → Type 0
IsNormal ask rs seen done =
    (done.0 ≡ map (with_id ask) rs)
    × IsFaithful ask done.1
    × IsUnclaimed seen done.0
    × HasDistinctIds done.0

IsNormal-cons :
    (ask : QueryHash) (r : Rule) (rs : List Rule) (seen seen' : Map ℕ Text) (h : ℕ)
    (done : List Rule × Map Text ℕ)
    → ask r.expr ≡ hashed h
    → lookup (hash_rule_with_expr_hash h r) seen ≡ none
    → seen' ≡ insert (hash_rule_with_expr_hash h r) (rule_name r) seen
    → IsNormal ask rs seen' done
    → IsNormal ask (r ∷ rs) seen (record r { id = hash_rule_with_expr_hash h r } ∷ done.0, done.1)
IsNormal-cons ask r rs seen seen' h done asked free e n =
    let rest =
      IsUnclaimed-of_insert (hash_rule_with_expr_hash h r) (rule_name r) seen done.0
        (subst (λ s. IsUnclaimed s done.0) e n.2) in
    (
      cc (n.0, ap (λ a. record r { id = hash_rule_with_expr_hash (answer_or_zero a) r }) asked),
      n.1,
      (free, rest.0),
      (rest.1, n.3),
    )

pub normalize_rules_lem :
    (ask : QueryHash) (group : Text) (rs : List Rule) (seen : Map ℕ Text) (cache : Map Text ℕ)
    (done : List Rule × Map Text ℕ)
    → IsFaithful ask cache
    → normalize_rules ask group rs seen cache ≡ ok done
    → IsNormal ask rs seen done
unfolding normalize_rules
normalize_rules_lem ask group [] seen cache done good p =
    subst (IsNormal ask [] seen) (ok-injective p) (refl, good, tt, tt)
normalize_rules_lem ask group (r ∷ rs) seen cache done good p =
    let ((h, cache'), first, p') = >>=-ok (cached_hash ask group r cache) _ p in
    let (seen', second, p'') = >>=-ok (claim_id group r (hash_rule_with_expr_hash h r) seen) _ p' in
    let (rest, third, last) = >>=-ok (normalize_rules ask group rs seen' cache') _ p'' in
    let one = cached_hash_lem ask group r cache cache' h good first in
    let two = claim_id_lem group r (hash_rule_with_expr_hash h r) seen seen' second in
    subst (IsNormal ask (r ∷ rs) seen) (ok-injective last) (
      IsNormal-cons ask r rs seen seen' h rest one.0 two.0 two.1
        (normalize_rules_lem ask group rs seen' cache' rest one.1 third))

abbrev AreNormal : QueryHash → List Group → List Group → Type 0
AreNormal ask gs done = (done ≡ map (with_ids ask) gs) × All (λ g. HasDistinctIds g.rules) done

normalize_groups_lem :
    (ask : QueryHash) (gs : List Group) (cache : Map Text ℕ) (done : List Group)
    → IsFaithful ask cache
    → normalize_groups ask gs cache ≡ ok done
    → AreNormal ask gs done
unfolding normalize_groups
normalize_groups_lem ask [] cache done good p = subst (AreNormal ask []) (ok-injective p) (refl, tt)
normalize_groups_lem ask (g ∷ gs) cache done good p =
    let ((rules, cache'), first, p') = >>=-ok (normalize_rules ask g.name g.rules [] cache) _ p in
    let (rest, second, last) = >>=-ok (normalize_groups ask gs cache') _ p' in
    let one = normalize_rules_lem ask g.name g.rules [] cache (rules, cache') good first in
    let two = normalize_groups_lem ask gs cache' rest one.1 second in
    subst (AreNormal ask (g ∷ gs)) (ok-injective last) (cc (one.0, two.0), (one.3, two.1))

-- If `NormalizeRuleIDs` succeeds, then each rule carries the identity made of the query's hash of
-- its own expression, its name and its labels, all else is as before, and no two rules of a group
-- share an identity.
pub normalize_rule_ids_sound :
    (ask : QueryHash) (gs done : List Group)
    → normalize_rule_ids ask gs ≡ ok done
    → (done ≡ map (with_ids ask) gs) × All (λ g. HasDistinctIds g.rules) done
unfolding normalize_rule_ids lookup
normalize_rule_ids_sound ask gs done p = normalize_groups_lem ask gs [] done (λ e h q. cc) p
