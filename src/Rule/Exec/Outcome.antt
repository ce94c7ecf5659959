-- ===== src/Rule/Exec/Outcome.antt =====
-- When `Exec` of rule/rule.go returns alerts, and what it leaves when it returns an error.
use chalert.Prelude.{
  ℕ, ◌+◌, ◌≤◌, ◌≡◌, refl, inl, inr, Bool, true, false, List, [], ◌∷◌, length, Option, none, some,
  lookup, insert, sweep, nat_eq, ℤ, pos, ◌≤ℤ◌, ◌<ℤ◌, arith, Bool-cases, Option-cases, if◌then◌else◌,
}
use chalert.Time.{Time, Duration}
use chalert.Datasource.{Metric}
use chalert.Rule.Instance.{
  AlertState, inactive, pending, firing, AlertInstance, Alerts, AlertingRule,
}
use chalert.Rule.Exec.{
  Env, returned, to_send, duplicate, no_value, exceeds, member, purge_one, settle_one, promote_one,
  release_one, resolve_one, stamp_one, observe_one, observe_rows, settle, stamp, alerts_to_send,
  num_active, conclude, process_rows, answer, exec,
}
use chalert.Rule.Exec.Observe.{labels_of, id_of, HasValue, observe_cases}

abbrev is_live : AlertState → Bool
is_live inactive = false
is_live pending = true
is_live firing = true

module _ {F : Type 0} where
  -- The pending and firing instances.
  pub count_live : Alerts F → ℕ
  count_live [] = 0
  count_live ((id, a) ∷ m) = (if is_live a.state then 1 else 0) + count_live m

  -- Each row has a value, and no two rows have one identity (nor any of those given).
  unfoldable pub AreFresh : AlertingRule F → List ℕ → List (Metric F) → Type 0
  AreFresh ar seen [] = Unit {0}
  AreFresh ar seen (m ∷ ms) =
      (member (id_of ar m) seen ≡ false) × HasValue m × AreFresh ar (id_of ar m ∷ seen) ms

  module _ (env : Env F) (ar : AlertingRule F) (ts : Time) where
    observe_ends :
        (ms : List (Metric F)) (seen : List ℕ) (alerts : Alerts F)
        → AreFresh ar seen ms
        → (observe_rows env ar ts ms seen alerts).2 ≡ none
    unfolding AreFresh observe_rows
    observe_ends [] seen alerts h = refl
    observe_ends (m ∷ ms) seen alerts h =
        let id = id_of ar m in
        observe_cases env ar ts (λ t. t.2 ≡ none) m ms seen alerts m.values refl (λ e. cc (e, h.0))
          (λ e. absurd (h.1 e))
          (λ v _ _.
            observe_ends ms (id ∷ seen)
              (insert id (observe_one env ar ts m (labels_of ar m) id v (lookup id alerts)) alerts)
              h.2)

    settle_one_live :
        (seen : Bool) (a b : AlertInstance F)
        → (settle_one env ar ts seen a).0 ≡ some b
        → is_live b.state ≡ true
        → (settle_one env ar ts seen a).1 ≡ true
    unfolding settle_one promote_one release_one resolve_one
    settle_one_live true a b h l = ground arith
    settle_one_live false a b h l = ground arith

    -- One entry of the sweep, with its results as variables.
    count_live-entry :
        (id rest_active : ℕ) (r : Option (AlertInstance F)) (flag : Bool) (rest : Alerts F)
        → ((b : AlertInstance F) → r ≡ some b → is_live b.state ≡ true → flag ≡ true)
        → count_live rest ≤ rest_active
        → count_live (elim r [ none ↦ rest | some w ↦ (id, w) ∷ rest ])
          ≤ (if flag then 1 else 0) + rest_active
    unfolding count_live
    count_live-entry id rest_active none flag rest h le = omega arith
    count_live-entry id rest_active (some b) flag rest h le = ground (arith, h b refl)

    count_live-settle :
        (seen : List ℕ) (m : Alerts F)
        → count_live (settle env ar ts seen m) ≤ num_active env ar ts seen m
    unfolding settle num_active sweep
    count_live-settle seen [] = unfold count_live in omega arith
    count_live-settle seen ((id, a) ∷ m) =
        count_live-entry id (num_active env ar ts seen m)
          (settle_one env ar ts (member id seen) a).0 (settle_one env ar ts (member id seen) a).1
          (settle env ar ts seen m) (λ b. settle_one_live (member id seen) a b)
          (count_live-settle seen m)

    state-stamp : (a : AlertInstance F) → (stamp_one env ar ts a).state ≡ a.state
    unfolding stamp_one
    state-stamp a = ground arith

    count_live-stamp : (m : Alerts F) → count_live (stamp env ar ts m) ≡ count_live m
    unfolding count_live stamp sweep
    count_live-stamp [] = refl
    count_live-stamp ((id, a) ∷ m) = cc (count_live-stamp m, state-stamp a)

    conclude_within :
        (limit : ℤ) (seen : List ℕ) (alerts : Alerts F) (out : List (AlertInstance F))
        → pos 0 <ℤ limit
        → (conclude env ar ts limit seen alerts).1 ≡ to_send out
        → pos (count_live (conclude env ar ts limit seen alerts).0) ≤ℤ limit
    unfolding conclude
    conclude_within limit seen alerts out positive h =
        elim (Bool-cases (exceeds (num_active env ar ts seen alerts) limit)) [
          | inl over ↦ ground arith
          | inr within ↦
              rw (within, conclude)
                (ground (
                  arith,
                  within,
                  count_live-stamp (settle env ar ts seen alerts),
                  count_live-settle seen alerts,
                ))
        ]

    process_within :
        (limit : ℤ) (rows : List (Metric F)) (out : List (AlertInstance F))
        → pos 0 <ℤ limit
        → (process_rows env ar ts limit rows).1 ≡ to_send out
        → pos (count_live (process_rows env ar ts limit rows).0) ≤ℤ limit
    unfolding process_rows
    process_within limit rows out positive h =
        let looped = observe_rows env ar ts rows [] (sweep (λ id a. purge_one ts a) ar.alerts) in
        elim (Option-cases looped.2) [
          | inl ended ↦
              rw (ended, process_rows)
                (conclude_within limit looped.1 looped.0 out positive (ground arith))
          | inr (duplicate labels, stopped) ↦ ground arith
          | inr (no_value, stopped) ↦ ground arith
        ]

    module _ (limit : ℤ) (start : Time) (duration : Duration) where
      -- After an evaluation that returns alerts under a positive limit, the rule holds at most
      -- `limit` pending and firing instances.
      pub exec_within_limit :
          (rows : List (Metric F)) (out : List (AlertInstance F))
          → env.query ar.querier ar.expr ts ≡ returned rows none
          → pos 0 <ℤ limit
          → (exec env ar ts limit start duration).1 ≡ to_send out
          → pos (count_live (exec env ar ts limit start duration).0.alerts) ≤ℤ limit
      unfolding exec answer
      exec_within_limit rows out q positive h = elim (Bool-cases (exceeds (length rows) limit)) [
        | inl over ↦ ground arith
        | inr within ↦ rw (q, within, exec) (process_within limit rows out positive (ground arith))
      ]

      conclude_unlimited :
          (seen : List ℕ) (alerts : Alerts F)
          → limit ≤ℤ pos 0
          → (conclude env ar ts limit seen alerts).1
            ≡ to_send (alerts_to_send env ar ts (settle env ar ts seen alerts))
      unfolding conclude
      conclude_unlimited seen alerts none_set =
          let unlimited : exceeds (num_active env ar ts seen alerts) limit ≡ false = ground arith in
          rw (unlimited, conclude)

      -- Without a limit, an evaluation whose query succeeds with rows that each have a value and
      -- identities that differ always returns alerts to send: it neither fails nor panics.
      pub exec_total :
          (rows : List (Metric F))
          → env.query ar.querier ar.expr ts ≡ returned rows none
          → limit ≤ℤ pos 0
          → AreFresh ar [] rows
          → (out : List (AlertInstance F)) × ((exec env ar ts limit start duration).1 ≡ to_send out)
      unfolding exec answer process_rows
      exec_total rows q none_set fresh =
          let looped = observe_rows env ar ts rows [] (sweep (λ id a. purge_one ts a) ar.alerts) in
          let within : exceeds (length rows) limit ≡ false = ground arith in
          let ended : looped.2 ≡ none = observe_ends rows [] _ fresh in
          (
            alerts_to_send env ar ts (settle env ar ts looped.1 looped.0),
            rw (q, within, exec)
                (rw (ended, process_rows) (conclude_unlimited looped.1 looped.0 none_set)),
          )
