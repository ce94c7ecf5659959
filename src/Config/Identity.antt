-- ===== src/Config/Identity.antt =====
-- Rule identities of config.go: `HashRule`, `hashRuleWithExprHash` and `NormalizeRuleIDs`.
pub mod Boundaries
pub mod Reformatting
pub mod Complete
pub mod Normalized
use chalert.Prelude.{
  ℕ, zero, suc, ◌/◌, ◌%◌, ◌+◌, ◌^◌, Bool, true, false, ◌||◌, not, ◌==◌, List, [], ◌∷◌, ◌++◌, Option,
  none, some, Text, is_empty, codes, Map, lookup, insert, nat_eq, text_Eq, leb, ◌&&◌, if◌then◌else◌,
}
use chalert.Hash.{write, offset_basis}
use chalert.Sort.{sort_by}
use chalert.Config.{Rule, Group, rule_name}

-- `unicode.IsSpace` on ASCII bytes.
unfoldable pub is_space : ℕ → Bool
is_space c = (leb 9 c && leb c 13) || c == 32

abbrev begins_word : Text → Bool
begins_word [] = false
begins_word (c ∷ s) = not (is_space c)

abbrev push_head : ℕ → List Text → List Text
push_head c [] = (c ∷ []) ∷ []
push_head c (w ∷ ws) = (c ∷ w) ∷ ws

-- `strings.Fields`.
fields : Text → List Text
fields [] = []
fields (c ∷ s) =
    let rest = fields s in
    if is_space c then rest else if begins_word s then push_head c rest else (c ∷ []) ∷ rest

-- `strings.Join` by one space.
join_words : List Text → Text
join_words [] = []
join_words (w ∷ []) = w
join_words (w ∷ v ∷ ws) = w ++ 32 ∷ join_words (v ∷ ws)

pub normalize_expr : Text → Text
unfolding fields join_words
normalize_expr s = join_words (fields s)

-- The loop over the sorted labels.
write_entries : ℕ → List (Text × Text) → ℕ
write_entries h [] = h
write_entries h ((k, v) ∷ kv) = write_entries (write (write (write h k) v) (0xff ∷ [])) kv

abbrev sorted_map_entries : Map Text Text → List (Text × Text)
sorted_map_entries = sort_by (λ p. p.0)

write_kind : ℕ → Rule → ℕ
write_kind h r =
    if not (is_empty r.record_name)
    then write (write h (codes "recording")) r.record_name
    else write (write h (codes "alerting")) r.alert

unfoldable pub hash_rule : Rule → ℕ
unfolding write_kind write_entries
hash_rule r =
    write_entries (write_kind (write offset_basis (normalize_expr r.expr)) r)
      (sorted_map_entries r.labels)

-- `binary.LittleEndian.PutUint64`, for the rounds left.
little_endian : ℕ → ℕ → Text
little_endian zero n = []
little_endian (suc k) n = n % 256 ∷ little_endian k (n / 256)

unfoldable pub hash_rule_with_expr_hash : ℕ → Rule → ℕ
unfolding write_kind write_entries little_endian
hash_rule_with_expr_hash expr_hash r =
    write_entries (write_kind (write offset_basis (little_endian 8 expr_hash)) r)
      (sorted_map_entries r.labels)

pub data NormalizeError : Type 0 where
  query_failed : Text → Text → Text → NormalizeError
  same_identity : Text → Text → Text → NormalizeError

pub data Result {ℓ} (A : Type ℓ) : Type ℓ where
  ok : A → Result A
  err : NormalizeError → Result A

infixl 5 ◌>>=◌
abbrev pub ◌>>=◌ {ℓ κ} : {A : Type ℓ} {B : Type κ} → Result A → (A → Result B) → Result B
ok a >>= f = f a
err e >>= f = err e

-- The query of ClickHouse's `normalizedQueryHashKeepNames`: a hash, or the error's message.
pub data Answer : Type 0 where
  hashed : ℕ → Answer
  refused : Text → Answer

abbrev pub QueryHash : Type 0
QueryHash = Text → Answer

-- One expression, through the cache.
pub cached_hash : QueryHash → Text → Rule → Map Text ℕ → Result (ℕ × Map Text ℕ)
cached_hash ask group r cache = elim (lookup r.expr cache) [
  | some h ↦ ok (h, cache)
  | none ↦ elim (ask r.expr) [
    | refused e ↦ err (query_failed (rule_name r) group e)
    | hashed h ↦ ok (h, insert r.expr h cache)
  ]
]

-- The test for an identity that is taken already.
pub claim_id : Text → Rule → ℕ → Map ℕ Text → Result (Map ℕ Text)
claim_id group r id seen = elim (lookup id seen) [
  | some prev ↦ err (same_identity group prev (rule_name r))
  | none ↦ ok (insert id (rule_name r) seen)
]

-- The inner loop. (The source writes the rules in place; on an error the caller drops them.)
pub normalize_rules :
    QueryHash → Text → List Rule → Map ℕ Text → Map Text ℕ → Result (List Rule × Map Text ℕ)
unfolding cached_hash claim_id
normalize_rules ask group [] seen cache = ok ([], cache)
normalize_rules ask group (r ∷ rs) seen cache = do
  (h, cache') ← cached_hash ask group r cache
  let id = hash_rule_with_expr_hash h r
  seen' ← claim_id group r id seen
  (rest, cache'') ← normalize_rules ask group rs seen' cache'
  ok (record r { id = id } ∷ rest, cache'')

pub normalize_groups : QueryHash → List Group → Map Text ℕ → Result (List Group)
unfolding normalize_rules
normalize_groups ask [] cache = ok []
normalize_groups ask (g ∷ gs) cache = do
  (rules, cache') ← normalize_rules ask g.name g.rules [] cache
  rest ← normalize_groups ask gs cache'
  ok (record g { rules = rules } ∷ rest)

unfoldable pub normalize_rule_ids : QueryHash → List Group → Result (List Group)
unfolding normalize_groups
normalize_rule_ids ask groups = normalize_groups ask groups []
