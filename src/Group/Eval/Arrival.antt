-- ===== src/Group/Eval/Arrival.antt =====
-- The concurrent evaluation of a group against the sequential one: only the order of what it gives
-- depends on the order in which the results arrive.
use mathlib.Core.List.{Permᴰ}
use mathlib.Core.List.Permᴰ
use chalert.Prelude.{
  subst, ◌≡◌, refl, ap, ◌∙◌, inl, inr, Bool-cases, List, [], ◌∷◌, ◌++◌, map, Perm, append_exchange,
  none, some, Option-cases, Text, ℤ, pos, ltb_ℤ, if◌then◌else◌,
}
use chalert.Time.{Time, Duration}
use chalert.Rule.Instance.{AlertInstance, AlertingRule}
use chalert.Rule.Exec.{Env, ExecError, ExecResult, to_send, failed, panicked, exec}
use chalert.Group.Eval.{
  Run, Reading, gather, exec_recovered, exec_goroutine, recovered, sent_result, exec_rules,
  evaluation,
}
use chalert.Group.Eval.Schedule.{Schedule, spawned, finished, Schedule-sent}

module _ {F : Type 0} where
  delivered : Run F → List (AlertInstance F)
  delivered run = if run.panicked then [] else elim run.err [ none ↦ run.out | some e ↦ [] ]

  gather-cons :
      (run : Run F) (runs : List (Run F)) → gather (run ∷ runs) ≡ delivered run ++ gather runs
  unfolding gather delivered
  gather-cons run runs = elim (Bool-cases run.panicked) [
    | inl p ↦ rw p refl
    | inr p ↦ elim (Option-cases run.err) [ inl h ↦ rw (p, h) refl | inr (t, h) ↦ rw (p, h) refl ]
  ]

  gather_cons₂ :
      (a b : Run F) (l : List (Run F))
      → gather (a ∷ b ∷ l) ≡ delivered a ++ (delivered b ++ gather l)
  gather_cons₂ a b l = gather-cons a (b ∷ l) ∙ ap (λ x. delivered a ++ x) (gather-cons b l)

  gather_permᴰ : {xs ys : List (Run F)} → Permᴰ xs ys → Permᴰ (gather xs) (gather ys)
  gather_permᴰ Permᴰ.nil = Permᴰ.refl (gather [])
  gather_permᴰ (Permᴰ.cons {a} {b} {l₁} {l₂} e p) =
      rw (gather-cons a l₁, gather-cons b l₂, e) (Permᴰ.append_left (delivered b) (gather_permᴰ p))
  gather_permᴰ (Permᴰ.swap {a} {b} {a'} {b'} {l} p q) =
      rw (gather_cons₂ a b l, gather_cons₂ a' b' l, p, q)
        (append_exchange (delivered b') (delivered a') (gather l))
  gather_permᴰ (Permᴰ.trans p q) = Permᴰ.trans (gather_permᴰ p) (gather_permᴰ q)

-- The goroutine of a rule and an iteration of the sequential loop come to the same, though the one
-- that panicked counts other matches.
sent_result-recovered :
    {F : Type 0} (error_text : ExecError → Text) (elapsed : Duration) (name : Text) (at : Time)
    (r : AlertingRule F) (x : ExecResult F)
    → let a = sent_result error_text elapsed r x in
      let b = recovered error_text elapsed r x in
      (a.rule ≡ b.rule)
      × (delivered a ≡ delivered b)
      × (evaluation name at a ≡ evaluation name at b)
unfolding sent_result recovered delivered evaluation
sent_result-recovered error_text elapsed name at r (to_send out) = (refl, refl, refl)
sent_result-recovered error_text elapsed name at r (failed e) = (refl, refl, refl)
sent_result-recovered error_text elapsed name at r (panicked p) = (refl, refl, refl)

module _ {F : Type 0} (env : Env F) (error_text : ExecError → Text)
    (clock : AlertingRule F → Reading) (ts : Time) (limit : ℤ) where
  at_once-in_turn :
      (name : Text) (at : Time) (rules : List (AlertingRule F))
      → let at_once = map (exec_goroutine env error_text clock ts limit) rules in
        let in_turn = map (exec_recovered env error_text clock ts limit) rules in
        (map (λ run. run.rule) at_once ≡ map (λ run. run.rule) in_turn)
        × (gather at_once ≡ gather in_turn)
        × (map (evaluation name at) at_once ≡ map (evaluation name at) in_turn)
  unfolding exec_goroutine exec_recovered
  at_once-in_turn name at [] = (refl, refl, refl)
  at_once-in_turn name at (r ∷ rest) =
      let a = exec_goroutine env error_text clock ts limit r in
      let b = exec_recovered env error_text clock ts limit r in
      let as_ = map (exec_goroutine env error_text clock ts limit) rest in
      let bs = map (exec_recovered env error_text clock ts limit) rest in
      let t = clock r in
      let (after, result) = exec env r ts limit t.start t.query_duration in
      let (rule, alerts, evals) =
        sent_result-recovered error_text t.duration name at after result in
      let (rules, all, evaluations) = at_once-in_turn name at rest in
      (
        rw (rule, rules) refl,
        rw (gather-cons a as_, gather-cons b bs, alerts, all) refl,
        rw (evals, evaluations) refl,
      )

  -- Take any run of the goroutines of a group's concurrent evaluation, in which at most as many as the
  -- concurrency execute their rule at a time, up to where all have sent their result; the results are
  -- received in the order in which they were sent. Then the group has the same rules afterwards as one
  -- that evaluates them in sequence, and it sends the same alerts and records the same evaluations, in
  -- some order, also of the rules whose evaluation panics.
  pub exec_rules_arrival :
      (arrive : List (Run F) → List (Run F)) (name : Text) (rules : List (AlertingRule F))
      (at : Time) (concurrency : ℤ) (sent : List (Run F))
      → let body = exec_goroutine env error_text clock ts limit in
        Schedule body concurrency (spawned rules) (finished sent)
        → arrive (map body rules) ≡ sent
        → let (after, all, evals) =
            exec_rules env error_text clock arrive name rules ts at concurrency limit in
          let (after', all', evals') =
            exec_rules env error_text clock arrive name rules ts at (pos 1) limit in
          (after ≡ after') × Perm all all' × Perm evals evals'
  unfolding exec_rules
  exec_rules_arrival arrive name rules at concurrency sent s e =
      let body = exec_goroutine env error_text clock ts limit in
      let (same_rules, same_alerts, same_evals) = at_once-in_turn name at rules in
      let perm : Permᴰ sent (map body rules) = Schedule-sent body concurrency rules sent s in
      elim (Bool-cases (ltb_ℤ (pos 1) concurrency)) [
        | inl c ↦
            rw (c, e)
              (
                same_rules,
                ∣ subst (λ l. Permᴰ (gather sent) l) same_alerts (gather_permᴰ perm) ∣₁,
                ∣ subst (λ l. Permᴰ (map (evaluation name at) sent) l) same_evals
                    (Permᴰ.map (evaluation name at) perm) ∣₁,
              )
        | inr c ↦ rw c (refl, ∣ Permᴰ.refl _ ∣₁, ∣ Permᴰ.refl _ ∣₁)
      ]
