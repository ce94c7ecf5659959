-- ===== src/Group/Eval.antt =====
-- rule/group.go: one evaluation of a group, its rules in sequence or concurrently. Formatting an
-- error (`fmt`, `error_text`), the clock, the notifier and the state store are parameters.
pub mod Schedule
pub mod Arrival
pub mod Keyed
use chalert.Prelude.{
  ℕ, Bool, true, false, List, [], ◌∷◌, ◌++◌, map, Option, none, some, Text, codes, ℤ, pos, ltb_ℤ,
  ◌-ℤ◌, if◌then◌else◌,
}
use chalert.Time.{Time, Duration, add}
use chalert.Rule.Instance.{AlertInstance, AlertingRule, Evaluation}
use chalert.Rule.Exec.{Env, ExecError, ExecResult, to_send, failed, panicked, exec}
use chalert.Rule.Retire.{StateStore, Retirements, flush, resolve}
use chalert.Group.{Group, update_with, alerts_of_rules}

-- What the clock shows around a rule's query, and the time that the whole of it takes.
pub record Reading : Type 0 where
  pub start : Time
  pub query_duration : Duration
  pub duration : Duration

-- A rule after its evaluation, and how that ended: what the sequential loop has in its variables, and
-- the type `result` of the concurrent evaluation.
pub record Run (F : Type 0) : Type 0 where
  pub rule : AlertingRule F
  pub out : List (AlertInstance F)
  pub samples : ℕ
  pub err : Option Text
  pub elapsed : Duration
  pub panicked : Bool

abbrev is_none : {A : Type 0} → Option A → Bool
is_none none = true
is_none (some a) = false

abbrev text_or_empty : Option Text → Text
text_or_empty none = []
text_or_empty (some s) = s

-- `evaluation`.
pub evaluation : {F : Type 0} → Text → Time → Run F → Evaluation
evaluation group_name at run = record {
  rule_id = run.rule.rule_id;
  group_name = group_name;
  alert_name = run.rule.name;
  evaluated_at = at;
  duration = run.elapsed;
  ok = is_none run.err;
  samples = if is_none run.err then run.samples else 0;
  error = text_or_empty run.err;
}

-- What the loops over the rules and over the results gather for the notifier: an evaluation that
-- panicked or failed adds nothing.
pub gather : {F : Type 0} → List (Run F) → List (AlertInstance F)
gather [] = []
gather (run ∷ runs) =
    let all = gather runs in
    if run.panicked then all else elim run.err [ none ↦ run.out ++ all | some e ↦ all ]

module _ {F : Type 0} (error_text : ExecError → Text) (elapsed : Duration) where
  -- `execRecovered` and what the sequential loop reads after it: the matches of the rule, also when it
  -- panicked.
  pub recovered : AlertingRule F → ExecResult F → Run F
  recovered r (to_send out) = record {
    rule = r;
    out = out;
    samples = r.last_samples;
    err = none;
    elapsed = elapsed;
    panicked = false;
  }
  recovered r (failed e) = record {
    rule = r;
    out = [];
    samples = r.last_samples;
    err = some (error_text e);
    elapsed = elapsed;
    panicked = false;
  }
  recovered r (panicked p) = record {
    rule = r;
    out = [];
    samples = r.last_samples;
    err = some (codes "panic: " ++ p);
    elapsed = elapsed;
    panicked = true;
  }

  -- What the goroutine of a rule sends at its end, or from its `recover`, which sends no matches.
  pub sent_result : AlertingRule F → ExecResult F → Run F
  sent_result r (to_send out) = record {
    rule = r;
    out = out;
    samples = r.last_samples;
    err = none;
    elapsed = elapsed;
    panicked = false;
  }
  sent_result r (failed e) = record {
    rule = r;
    out = [];
    samples = r.last_samples;
    err = some (error_text e);
    elapsed = elapsed;
    panicked = false;
  }
  sent_result r (panicked p) = record {
    rule = r;
    out = [];
    samples = 0;
    err = some (codes "panic: " ++ p);
    elapsed = elapsed;
    panicked = true;
  }

module _ {F : Type 0} (env : Env F) (error_text : ExecError → Text) where
  module _ (clock : AlertingRule F → Reading) where
    -- An iteration of the sequential loop, up to its end of `Exec`.
    pub exec_recovered : Time → ℤ → AlertingRule F → Run F
    unfolding recovered
    exec_recovered ts limit r =
        let t = clock r in
        let (after, result) = exec env r ts limit t.start t.query_duration in
        recovered error_text t.duration after result

    -- The goroutine of a rule in the concurrent evaluation.
    pub exec_goroutine : Time → ℤ → AlertingRule F → Run F
    unfolding sent_result
    exec_goroutine ts limit r =
        let t = clock r in
        let (after, result) = exec env r ts limit t.start t.query_duration in
        sent_result error_text t.duration after result

    -- `execRules`: the rules afterwards, the alerts and the evaluations. `arrive` is the order in
    -- which the channel delivers the results of concurrent evaluations (Group/Eval/Schedule).
    pub exec_rules :
        (List (Run F) → List (Run F))
        → Text
        → List (AlertingRule F)
        → Time
        → Time
        → ℤ
        → ℤ
        → List (AlertingRule F) × List (AlertInstance F) × List Evaluation
    unfolding exec_recovered exec_goroutine gather evaluation
    exec_rules arrive name rules ts at concurrency limit =
        let in_turn = map (exec_recovered ts limit) rules in
        let at_once = map (exec_goroutine ts limit) rules in
        let several = ltb_ℤ (pos 1) concurrency in
        let results = if several then arrive at_once else in_turn in
        (
          map (λ run. run.rule) (if several then at_once else in_turn),
          gather results,
          map (evaluation name at) results,
        )

-- What an evaluation does outside the group, where there is something to do.
pub record Effects (F : Type 0) : Type 0 where
  pub notified : Option (List (AlertInstance F))
  pub logged : Option (List Evaluation)

abbrev if_any : {A : Type 0} → List A → Option (List A)
if_any [] = none
if_any (x ∷ xs) = some (x ∷ xs)

abbrev delayed : Time → Option Duration → Time
delayed ts none = ts
delayed ts (some d) = add ts (pos 0 -ℤ d)

module _ {F W : Type 0} where
  -- An error of the store is only logged.
  record_alerts : Option (StateStore F W) → Time → List (AlertInstance F) → W → W
  record_alerts none at all w = w
  record_alerts (some store) at [] w = w
  record_alerts (some store) at (a ∷ all) w = (store.record_history at (a ∷ all) w).1

  module _ (env : Env F) (error_text : ExecError → Text) (clock : AlertingRule F → Reading) where
    -- The function `eval` of `Start`, at the tick `ts`, when the clock shows `at`.
    unfoldable pub eval :
        (List (Run F) → List (Run F))
        → Option (StateStore F W)
        → Group F
        → Retirements F
        → W
        → Time
        → Time
        → Group F × Retirements F × W × Effects F
    unfolding exec_rules record_alerts
    eval arrive store g retire w ts at =
        let (retire', w') = flush store retire w in
        elim g.rules [
          | [] ↦ (g, retire', w', record { notified = none; logged = none })
          | r ∷ rest ↦
              let (rules, all, evals) =
                exec_rules env error_text clock arrive g.name (r ∷ rest) (delayed ts g.eval_delay)
                  at g.concurrency g.limit in
              (
                record g { rules = rules },
                retire',
                record_alerts store at all w',
                record { notified = if_any all; logged = if_any evals },
              )
        ]

  -- `retireRules`, when the clock shows `at`.
  pub retire_rules :
      Option (StateStore F W) → Time → List (AlertingRule F) → Retirements F → W → Retirements F × W
  retire_rules store at rules retire w = elim (alerts_of_rules rules) [
    | [] ↦ (retire, w)
    | a ∷ all ↦ resolve store at (a ∷ all) retire w
  ]

  -- `Retire`, which a reload calls for a group that it removes.
  abbrev pub retire_group :
      Option (StateStore F W) → Time → Group F → Retirements F → W → Retirements F × W
  retire_group store at g retire w = retire_rules store at g.rules retire w

  -- A reload that reaches the loop of `Start`: the rules it drops are retired.
  unfoldable pub reload_group :
      Option (StateStore F W)
      → Time
      → Group F
      → Group F
      → Retirements F
      → W
      → Group F × Retirements F × W
  unfolding retire_rules
  reload_group store at g ng retire w =
      let (g', dropped) = update_with g ng in
      let (retire', w') = retire_rules store at dropped retire w in (g', retire', w')
