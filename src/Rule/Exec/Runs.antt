-- ===== src/Rule/Exec/Runs.antt =====
-- Evaluations of one rule in a row (rule/rule.go), each of which matches a given label set.
use chalert.Prelude.{
  ℕ, ◌≡◌, refl, sym, ◌∙◌, subst, inl, inr, Bool, true, false, not, ◌||◌, List, [], ◌∷◌, Option,
  none, some, lookup, nat_eq, IsDistinct, ℤ, ◌+ℤ◌, ltb_ℤ, arith, Bool-cases, if◌then◌else◌,
}
use chalert.Time.{Time, Duration}
use chalert.Time.Elapsed.{IsInt64}
use chalert.Datasource.{Metric}
use chalert.Rule.Instance.{AlertState, pending, firing, AlertInstance, AlertingRule}
use chalert.Rule.Exec.{Env, returned, to_send, exec}
use chalert.Rule.Exec.Observe.{row_of}
use chalert.Rule.Exec.Machine.{instance_step}
use chalert.Rule.Exec.Refines.{exec_refines}
use chalert.Rule.Exec.Invariant.{outcome_cases}
use chalert.Rule.Exec.Transitions.{IsSince, fired_by, step_new, step_pending, step_firing}

-- One evaluation: what it meets, and when.
pub record Tick (F : Type 0) : Type 0 where
  pub env : Env F
  pub ts : Time
  pub limit : ℤ
  pub start : Time
  pub duration : Duration

abbrev pub firing_if : Bool → AlertState
firing_if true = firing
firing_if false = pending

module _ {F : Type 0} where
  abbrev after_tick : Tick F → AlertingRule F → AlertingRule F
  after_tick t ar = (exec t.env ar t.ts t.limit t.start t.duration).0

  abbrev pub run : List (Tick F) → AlertingRule F → AlertingRule F
  run [] ar = ar
  run (t ∷ ticks) ar = run ticks (after_tick t ar)

  -- The evaluation returns alerts to send, and a row has the identity.
  pub record Matches (id : ℕ) (t : Tick F) (ar : AlertingRule F) : Type 0 where
    pub rows : List (Metric F)
    pub out : List (AlertInstance F)
    pub row : Metric F
    pub queried : t.env.query ar.querier ar.expr t.ts ≡ returned rows none
    pub sent : (exec t.env ar t.ts t.limit t.start t.duration).1 ≡ to_send out
    pub found : row_of ar id rows ≡ some row

  abbrev MatchesAll : ℕ → List (Tick F) → AlertingRule F → Type 0
  MatchesAll id [] ar = Unit
  MatchesAll id (t ∷ ticks) ar = Matches id t ar × MatchesAll id ticks (after_tick t ar)

  -- Some evaluation comes at `t + d` or later.
  abbrev pub reached : Time → Duration → List (Tick F) → Bool
  reached t d [] = false
  reached t d (k ∷ ticks) = not (ltb_ℤ k.ts (t +ℤ d)) || reached t d ticks

  pub for_dur-exec : (t : Tick F) (ar : AlertingRule F) → (after_tick t ar).for_dur ≡ ar.for_dur
  unfolding exec
  for_dur-exec t ar = elim (outcome_cases (t.env.query ar.querier ar.expr t.ts)) [
    | inl (p, e) ↦ ground arith
    | inr (rows, o, e) ↦ ground arith
  ]

  tick_lem :
      (id : ℕ) (t : Tick F) (ar : AlertingRule F) (old : Option (AlertInstance F))
      → IsDistinct ar.alerts
      → lookup id ar.alerts ≡ old
      → (w : Matches id t ar)
      → IsDistinct (after_tick t ar).alerts
        × (lookup id (after_tick t ar).alerts ≡ instance_step t.env ar t.ts id (some w.row) old)
  tick_lem id t ar old d e w =
      let r =
        exec_refines t.env ar t.ts t.limit t.start t.duration w.rows w.out d w.queried w.sent in
      (r.0, r.1 id ∙ rw (w.found, e))

  IsSince-some :
      (t : Time) (s : AlertState) (o : Option (AlertInstance F))
      → IsSince t s o
      → (a : AlertInstance F) × (o ≡ some a) × (a.state ≡ s) × (a.active_at ≡ t)
  IsSince-some t s none h = absurd h
  IsSince-some t s (some a) h = (a, refl, h.0, h.1)

  -- Once firing, it goes on firing.
  run_firing :
      (id : ℕ) (t : Time) (ticks : List (Tick F)) (ar : AlertingRule F)
      → IsDistinct ar.alerts
      → IsSince t firing (lookup id ar.alerts)
      → MatchesAll id ticks ar
      → IsSince t firing (lookup id (run ticks ar).alerts)
  run_firing id t [] ar d h w = h
  run_firing id t (k ∷ ticks) ar d h w =
      let (a, old, state, since) = IsSince-some t firing (lookup id ar.alerts) h in
      let r = tick_lem id k ar (some a) d old w.0 in
      run_firing id t ticks (after_tick k ar) r.0
        (subst (λ x. IsSince x firing (lookup id (after_tick k ar).alerts)) since
          (subst (IsSince a.active_at firing) (sym r.1)
            (step_firing k.env ar k.ts id w.0.row a state)))
        w.1

  run_pending :
      (id : ℕ) (t : Time) (ticks : List (Tick F)) (ar : AlertingRule F) (d : Duration)
      → IsDistinct ar.alerts
      → IsInt64 d
      → ar.for_dur ≡ d
      → IsSince t pending (lookup id ar.alerts)
      → MatchesAll id ticks ar
      → IsSince t (firing_if (reached t d ticks)) (lookup id (run ticks ar).alerts)
  run_pending id t [] ar d dist i e h w = h
  run_pending id t (k ∷ ticks) ar d dist i e h w =
      let (a, old, state, since) = IsSince-some t pending (lookup id ar.alerts) h in
      let r = tick_lem id k ar (some a) dist old w.0 in
      let at_tick : IsSince t (if ltb_ℤ k.ts (t +ℤ d) then pending else firing)
          (lookup id (after_tick k ar).alerts) =
        subst
          (λ x.
            IsSince t (if ltb_ℤ k.ts (t +ℤ x) then pending else firing)
              (lookup id (after_tick k ar).alerts))
          e
          (subst (λ x. IsSince x (fired_by k.env ar k.ts x) (lookup id (after_tick k ar).alerts))
            since
            (subst (IsSince a.active_at (fired_by k.env ar k.ts a.active_at)) (sym r.1)
              (step_pending k.env ar k.ts id w.0.row a (subst IsInt64 (sym e) i) state))) in
      elim (Bool-cases (ltb_ℤ k.ts (t +ℤ d))) [
        | inl early ↦ rw early (
            run_pending id t ticks (after_tick k ar) d r.0 i (for_dur-exec k ar ∙ e)
              (rw early at at_tick) w.1)
        | inr late ↦ rw late (run_firing id t ticks (after_tick k ar) r.0 (rw late at at_tick) w.1)
      ]

  -- A label set that the rule does not hold, and that every evaluation of the run matches: after the
  -- run its instance is firing if `for` had elapsed since the first of them at any of them, pending
  -- if not, and has been active since the first.
  pub run_fires :
      (id : ℕ) (first : Tick F) (ticks : List (Tick F)) (ar : AlertingRule F)
      → IsDistinct ar.alerts
      → IsInt64 ar.for_dur
      → lookup id ar.alerts ≡ none
      → MatchesAll id (first ∷ ticks) ar
      → IsSince first.ts
          (firing_if (reached first.ts ar.for_dur (first ∷ ticks)))
          (lookup id (run (first ∷ ticks) ar).alerts)
  run_fires id first ticks ar dist i absent w =
      let d = ar.for_dur in
      let t = first.ts in
      let r = tick_lem id first ar none dist absent w.0 in
      let at_tick : IsSince t (if ltb_ℤ t (t +ℤ d) then pending else firing)
          (lookup id (after_tick first ar).alerts) =
        subst (IsSince t (fired_by first.env ar t t)) (sym r.1)
          (step_new first.env ar t id w.0.row i) in
      elim (Bool-cases (ltb_ℤ t (t +ℤ d))) [
        | inl early ↦ rw early (
            run_pending id t ticks (after_tick first ar) d r.0 i (for_dur-exec first ar)
              (rw early at at_tick) w.1)
        | inr late ↦
            rw late (run_firing id t ticks (after_tick first ar) r.0 (rw late at at_tick) w.1)
      ]
