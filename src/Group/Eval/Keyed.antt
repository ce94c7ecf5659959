-- ===== src/Group/Eval/Keyed.antt =====
-- The rules of a group after an evaluation (rule/group.go): their alerts stay their own.
use chalert.Prelude.{
  Bool-cases, ltb_ℤ, pos, sym, subst, ◌≡◌, refl, ap, inl, inr, List, [], ◌∷◌, map, All, Option,
  Text, ℤ,
}
use chalert.Time.{Time, Duration}
use chalert.Rule.Instance.{AlertingRule}
use chalert.Rule.Exec.{Env, ExecError, ExecResult, to_send, failed, panicked}
use chalert.Rule.Exec.Sound.{IsSound, exec-IsSound}
use chalert.Rule.Retire.{StateStore, Retirements}
use chalert.Group.{Group, update_with}
use chalert.Group.Eval.{
  Reading, Run, exec_recovered, exec_goroutine, recovered, sent_result, exec_rules, eval,
  reload_group,
}

module _ {F : Type 0} (error_text : ExecError → Text) (elapsed : Duration) where
  -- However an evaluation ends, the rule is what `Exec` has left.
  recovered-rule :
      (r : AlertingRule F) (x : ExecResult F) → (recovered error_text elapsed r x).rule ≡ r
  unfolding recovered
  recovered-rule r (to_send out) = refl
  recovered-rule r (failed e) = refl
  recovered-rule r (panicked p) = refl

  sent_result-rule :
      (r : AlertingRule F) (x : ExecResult F) → (sent_result error_text elapsed r x).rule ≡ r
  unfolding sent_result
  sent_result-rule r (to_send out) = refl
  sent_result-rule r (failed e) = refl
  sent_result-rule r (panicked p) = refl

module _ {F : Type 0} where
  module _ (env : Env F) where
    module _ (error_text : ExecError → Text) (clock : AlertingRule F → Reading) where
      in_turn-IsSound :
          (ts : Time) (limit : ℤ) (rules : List (AlertingRule F))
          → All IsSound rules
          → All IsSound
              (map (λ run. run.rule) (map (exec_recovered env error_text clock ts limit) rules))
      unfolding exec_recovered
      in_turn-IsSound ts limit [] h = tt
      in_turn-IsSound ts limit (r ∷ rest) h =
          let t = clock r in
          (
            subst IsSound (sym (recovered-rule error_text t.duration _ _))
                (exec-IsSound env r ts limit t.start t.query_duration h.0),
            in_turn-IsSound ts limit rest h.1,
          )

      at_once-IsSound :
          (ts : Time) (limit : ℤ) (rules : List (AlertingRule F))
          → All IsSound rules
          → All IsSound
              (map (λ run. run.rule) (map (exec_goroutine env error_text clock ts limit) rules))
      unfolding exec_goroutine
      at_once-IsSound ts limit [] h = tt
      at_once-IsSound ts limit (r ∷ rest) h =
          let t = clock r in
          (
            subst IsSound (sym (sent_result-rule error_text t.duration _ _))
                (exec-IsSound env r ts limit t.start t.query_duration h.0),
            at_once-IsSound ts limit rest h.1,
          )

      exec_rules-IsSound :
          (arrive : List (Run F) → List (Run F)) (name : Text) (rules : List (AlertingRule F))
          (ts at : Time) (concurrency limit : ℤ)
          → All IsSound rules
          → All IsSound
              (exec_rules env error_text clock arrive name rules ts at concurrency limit).0
      unfolding exec_rules
      exec_rules-IsSound arrive name rules ts at concurrency limit h =
          elim (Bool-cases (ltb_ℤ (pos 1) concurrency)) [
            | inl c ↦ rw (c, exec_rules) (at_once-IsSound ts limit rules h)
            | inr c ↦ rw (c, exec_rules) (in_turn-IsSound ts limit rules h)
          ]

  module _ {W : Type 0} (env : Env F) (error_text : ExecError → Text)
      (clock : AlertingRule F → Reading) (arrive : List (Run F) → List (Run F))
      (store : Option (StateStore F W)) (retire : Retirements F) (w : W) (ts at : Time) where
    pub eval-IsSound :
        (g : Group F) (rules : List (AlertingRule F))
        → g.rules ≡ rules
        → All IsSound rules
        → All IsSound (eval env error_text clock arrive store g retire w ts at).0.rules
    unfolding eval
    eval-IsSound g [] e h = rw (e, eval, e) h
    eval-IsSound g (r ∷ rest) e h =
        rw (e, eval) (exec_rules-IsSound env error_text clock arrive g.name (r ∷ rest) _ at _ _ h)

    -- An evaluation changes nothing of a group but its rules.
    pub eval_changes_rules :
        (g : Group F) (rules : List (AlertingRule F))
        → g.rules ≡ rules
        → let after = (eval env error_text clock arrive store g retire w ts at).0 in
          after ≡ record g { rules = after.rules }
    unfolding eval
    eval_changes_rules g [] e = rw (e, eval) refl
    eval_changes_rules g (r ∷ rest) e = rw (e, eval) refl

    pub eval-id :
        (g : Group F) (rules : List (AlertingRule F))
        → g.rules ≡ rules
        → (eval env error_text clock arrive store g retire w ts at).0.id ≡ g.id
    eval-id g rules e = ap (λ h. h.id) (eval_changes_rules g rules e)

-- After a reload a group has the checksum of its new definition.
pub checksum-reload_group :
    {F W : Type 0} (store : Option (StateStore F W)) (at : Time) (g ng : Group F)
    (retire : Retirements F) (w : W)
    → (reload_group store at g ng retire w).0.checksum ≡ ng.checksum
unfolding reload_group update_with
checksum-reload_group store at g ng retire w = refl
