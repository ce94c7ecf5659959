-- ===== src/Rule/Exec/Machine.antt =====
-- One instance through one evaluation of its rule (rule/rule.go): what `Exec` does to it, and the
-- states of the package comment's diagram that it may take.
use chalert.Prelude.{
  ℕ, ◌≡◌, refl, ap, ◌∙◌, Bool, true, false, not, ◌&&◌, ◌||◌, Option, none, some, then_map, pos,
  ltb_ℤ, arith, if◌then◌else◌,
}
use chalert.Time.{Time, is_zero, sub}
use chalert.Time.Elapsed.{sub_self}
use chalert.Datasource.{Metric}
use chalert.Rule.Instance.{AlertState, inactive, pending, firing, AlertInstance, AlertingRule}
use chalert.Rule.Exec.{
  Env, purge_one, reactivate, observe_one, settle_one, release_one, resolve_one, promote_one,
  stamp_one, resolved_retention,
}
use chalert.Rule.Exec.Observe.{after_row, is_some_row}

module _ {F : Type 0} (env : Env F) (ar : AlertingRule F) (ts : Time) where
  -- The instance before its last-sent mark: retention, the row, and the two loops' rules, in turn.
  abbrev pub settled_step :
      ℕ → Option (Metric F) → Option (AlertInstance F) → Option (AlertInstance F)
  settled_step id row old =
      then_map (after_row env ar ts id row (then_map old (purge_one ts)))
        (λ a. (settle_one env ar ts (is_some_row row) a).0)

  abbrev pub instance_step :
      ℕ → Option (Metric F) → Option (AlertInstance F) → Option (AlertInstance F)
  instance_step id row old = then_map (settled_step id row old) (λ a. some (stamp_one env ar ts a))

  abbrev pub state_of : Option (AlertInstance F) → Option AlertState
  state_of none = none
  state_of (some a) = some a.state

  -- The alert is held firing although the query no longer returns it.
  abbrev is_held : AlertInstance F → Bool
  is_held a =
      ltb_ℤ (pos 0) ar.keep_fire
      && (is_zero a.keep_firing_since || ltb_ℤ (sub ts a.keep_firing_since) ar.keep_fire)

  abbrev fire_if : Bool → AlertState
  fire_if true = firing
  fire_if false = pending

  -- The diagram: the state after an evaluation that matches the instance, or does not.
  abbrev pub next_state : Bool → Option (AlertInstance F) → Option AlertState
  next_state true none = some (fire_if (not (ltb_ℤ (pos 0) ar.for_dur)))
  next_state true (some a) = elim a.state [
    | inactive ↦ some (fire_if (not (ltb_ℤ (pos 0) ar.for_dur)))
    | pending ↦ some (fire_if (not (ltb_ℤ (sub ts a.active_at) ar.for_dur)))
    | firing ↦ some firing
  ]
  next_state false none = none
  next_state false (some a) = elim a.state [
    | inactive ↦ if ltb_ℤ resolved_retention (sub ts a.resolved_at) then none else some inactive
    | pending ↦ none
    | firing ↦ some (if is_held a then firing else inactive)
  ]

  state_stamp : (a : AlertInstance F) → (stamp_one env ar ts a).state ≡ a.state
  unfolding stamp_one
  state_stamp a = ground arith

  state_stamped :
      (o : Option (AlertInstance F))
      → state_of (then_map o (λ a. some (stamp_one env ar ts a))) ≡ state_of o
  state_stamped none = refl
  state_stamped (some a) = ap some (state_stamp a)

  state_settled :
      (id : ℕ) (row : Option (Metric F)) (old : Option (AlertInstance F))
      → state_of (settled_step id row old) ≡ next_state (is_some_row row) old
  unfolding purge_one observe_one reactivate settle_one promote_one release_one resolve_one
  state_settled id none none = refl
  state_settled id none (some a) = ground (arith, sub_self ts)
  state_settled id (some m) none = ground (arith, sub_self ts)
  state_settled id (some m) (some a) = ground (arith, sub_self ts)

  -- The state after an evaluation is the one that the diagram gives.
  pub state_of-instance_step :
      (id : ℕ) (row : Option (Metric F)) (old : Option (AlertInstance F))
      → state_of (instance_step id row old) ≡ next_state (is_some_row row) old
  state_of-instance_step id row old =
      state_stamped (settled_step id row old) ∙ state_settled id row old
