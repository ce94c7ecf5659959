-- ===== src/StateStore/Restart.antt =====
-- What a rule has after a restart (Save and LoadActive of statestore/clickhouse.go, Restore of
-- rule/rule.go) of the alerts that it, or another rule with its identity, had at the shutdown.
use chalert.Prelude.{
  ◌++◌, ◌≢◌, All, ℕ, ◌≡◌, refl, sym, subst, ◌∙◌, ap, inl, inr, false, Bool-cases, ◌==◌, ==_iff,
  List, [], ◌∷◌, map, Option, none, some, lookup, then_map, nat_eq, arith, if◌then◌else◌,
}
use chalert.Rule.Instance.{AlertInstance, Alerts, AlertingRule, is_active, get_alerts, restore}
use chalert.Rule.Instance.Restored.{last_claim, or_else, lookup-restore}
use chalert.Rule.Exec.Invariant.{IsKeyed}
use chalert.Rule.Exec.Sound.{IsSound}
use chalert.StateStore.{state_row, rows, row, loaded, load_active}
use chalert.StateStore.RoundTrip.{forgotten, load_active-saved}

module _ {F : Type 0} where
  -- What a restart makes of an alert: pending and firing ones go on.
  abbrev pub resumed : AlertInstance F → Option (AlertInstance F)
  resumed a = if is_active a.state then some (forgotten a) else none

  IsKeyed-tail :
      (rule_id id : ℕ) (a : AlertInstance F) (m : Alerts F)
      → IsKeyed rule_id ((id, a) ∷ m)
      → IsKeyed rule_id m
  unfolding lookup
  IsKeyed-tail rule_id id a m k = record {
    distinct = k.distinct.1;
    keyed = λ j b h. k.keyed j b (elim (Bool-cases (id == j)) [
      | inl same ↦ absurd (ground (arith, (==_iff id j).0 same, k.distinct.0, h))
      | inr other ↦ ground (arith, other, h)
    ]);
  }

  last_claim-saved :
      (rule_id id : ℕ) (m : Alerts F)
      → IsKeyed rule_id m
      → last_claim rule_id id (map forgotten (map (λ p. p.1) m)) ≡ then_map (lookup id m) resumed
  unfolding lookup
  last_claim-saved rule_id id [] k = refl
  last_claim-saved rule_id id ((j, a) ∷ m) k =
      let own = k.keyed j a (ground arith) in
      let rest = last_claim-saved rule_id id m (IsKeyed-tail rule_id j a m k) in
      elim (Bool-cases (j == id)) [
        | inl here ↦
            let key : j ≡ id = (==_iff j id).0 here in
            let absent : lookup id m ≡ none = subst (λ x. lookup x m ≡ none) key k.distinct.0 in
            ground (arith, own.0, own.1, key, rest, absent, here)
        | inr there ↦
            let other : (a.id == id) ≡ false = subst (λ x. (x == id) ≡ false) (sym own.0) there in
            ground (arith, own.0, own.1, rest, there, other)
      ]

  or_else-none : (o : Option (AlertInstance F)) → or_else o none ≡ o
  or_else-none none = refl
  or_else-none (some a) = refl

  -- No alert of the rule.
  abbrev pub IsForeign : ℕ → List (AlertInstance F) → Type 0
  IsForeign rule_id all = All (λ a. a.rule_id ≢ rule_id) all

  last_claim-foreign :
      (rule_id id : ℕ) (xs ys : List (AlertInstance F))
      → IsForeign rule_id xs
      → last_claim rule_id id (map forgotten (xs ++ ys)) ≡ last_claim rule_id id (map forgotten ys)
  last_claim-foreign rule_id id [] ys h = refl
  last_claim-foreign rule_id id (x ∷ xs) ys h =
      ground (arith, h.0, ==_iff x.rule_id rule_id, last_claim-foreign rule_id id xs ys h.1)

  no_claim-foreign :
      (rule_id id : ℕ) (xs : List (AlertInstance F))
      → IsForeign rule_id xs
      → last_claim rule_id id (map forgotten xs) ≡ none
  no_claim-foreign rule_id id [] h = refl
  no_claim-foreign rule_id id (x ∷ xs) h =
      ground (arith, h.0, ==_iff x.rule_id rule_id, no_claim-foreign rule_id id xs h.1)

  last_claim-before :
      (rule_id id : ℕ) (ys xs : List (AlertInstance F))
      → IsForeign rule_id xs
      → last_claim rule_id id (map forgotten (ys ++ xs)) ≡ last_claim rule_id id (map forgotten ys)
  last_claim-before rule_id id [] xs h = no_claim-foreign rule_id id xs h
  last_claim-before rule_id id (y ∷ ys) xs h = ground (arith, last_claim-before rule_id id ys xs h)

  -- The alerts that are saved at a shutdown, those of one rule among them.
  abbrev pub all_saved :
      List (AlertInstance F) → AlertingRule F → List (AlertInstance F) → List (AlertInstance F)
  all_saved before r after = before ++ (get_alerts r ++ after)

  -- When the store returns the rows that were saved, and no error, a restart gives a new rule every
  -- pending or firing alert that a rule with its identity had at the shutdown, if the other alerts
  -- that were saved belong to rules with other identities: under the same identity and, but for the
  -- time at which it was sent last and the two durations of its rule, as it was; and it gives it
  -- nothing else. The two rules may belong to different groups.
  pub restore-saved :
      (old new : AlertingRule F) (before after : List (AlertInstance F)) (id : ℕ)
      → IsSound old
      → IsForeign old.rule_id before
      → IsForeign old.rule_id after
      → new.rule_id ≡ old.rule_id
      → new.alerts ≡ []
      → let all = all_saved before old after in
        (load_active (rows (map (λ inst. row (state_row inst)) all) none)
          ≡ loaded (map forgotten all) none)
        × (lookup id (restore (map forgotten all) new).alerts
            ≡ then_map (lookup id old.alerts) resumed)
  unfolding get_alerts lookup
  restore-saved old new before after id k fb fa e h =
      let all = all_saved before old after in
      let claims : ℕ → Option (AlertInstance F) = λ r. last_claim r id (map forgotten all) in
      (
        load_active-saved all,
        lookup-restore (map forgotten all) new id
            ∙ ap (λ r. or_else (claims r) (lookup id new.alerts)) e
            ∙ ap (λ m. or_else (claims old.rule_id) (lookup id m)) h
            ∙ or_else-none (claims old.rule_id)
            ∙ last_claim-foreign old.rule_id id before (get_alerts old ++ after) fb
            ∙ last_claim-before old.rule_id id (get_alerts old) after fa
            ∙ last_claim-saved old.rule_id id old.alerts k,
      )
