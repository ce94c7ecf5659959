-- ===== src/Tests.antt =====
-- Tests of the state store, the groups, their reload, and the display of a DSN.
use chalert.Prelude.{
  Option, some, nat_eq, insert, ℕ, ◌≡◌, refl, List, [], ◌∷◌, ◌++◌, map, Perm, none, codes, text_eq,
  text_Eq, lookup, then_map, pos, arith,
}
use chalert.Time.{zero_time}
use chalert.Datasource.{Metric}
use chalert.Config
use chalert.Rule.Exec.Sound.{IsSound}
use chalert.StateStore.RoundTrip.{forgotten}
use chalert.StateStore.Restart.{resumed, all_saved, restore-saved}
use chalert.Rule.Instance.{restore, firing, AlertInstance, AlertingRule, new_alerting_rule}
use chalert.Rule.Exec.{Env, returned}
use chalert.Group.{Group, update_with, alerts_of_rules, has_rule}
use chalert.Group.Reload.{update_with_keeps}
use chalert.Group.Reload.Dropped.{without, update_with-dropped}
use chalert.Group.Eval.{Run, Reading, exec_goroutine, exec_rules}
use chalert.Group.Eval.Schedule.{
  Pool, Schedule-completes, Schedule, spawned, finished, acquires, sends, ends, goes,
}
use chalert.Group.Eval.Arrival.{exec_rules_arrival}
use chalert.StateStore.{rows, row, state_row, loaded, load_active}
use chalert.Hash.{write}
use chalert.Rule.Retire.{StateStore, Retirements}
use chalert.Group.{GroupOptions, group_id}
use chalert.Group.{new_group as made_group}
use chalert.Main.{started_loop, registry}
use chalert.Main.Groups.{reloaded, reload_groups_unchanged}

abbrev metric : Metric ℕ
metric = record {
  labels = record { name = codes "a"; value = codes "1" } ∷ [];
  timestamps = [];
  values = 5 ∷ [];
}

abbrev alert : AlertInstance ℕ
alert = record {
  id = 3;
  rule_id = 7;
  group_name = codes "http";
  alert_name = codes "Down";
  labels = [];
  annotations = [];
  state = firing;
  value = 5;
  expr = codes "SELECT 1";
  active_at = pos 10;
  fired_at = pos 20;
  resolved_at = zero_time;
  last_sent = pos 20;
  keep_firing_since = zero_time;
  for_dur = pos 5;
  evaluation_interval = pos 60;
}

abbrev rule_of : ℕ → Config.Rule
rule_of id = record {
  alert = codes "Down";
  expr = codes "SELECT 1";
  for_dur = pos 0;
  labels = [];
  annotations = [];
  keep_firing_for = pos 0;
  record_name = [];
  debug = none;
  id = id;
}

abbrev new_rule : ℕ → AlertingRule ℕ
new_rule id = new_alerting_rule (codes "http") (pos 60) (rule_of id)

abbrev group_of : List (AlertingRule ℕ) → Group ℕ
group_of rules = record {
  id = 1;
  name = codes "http";
  file = codes "a.yaml";
  rules = rules;
  interval = pos 60;
  concurrency = pos 4;
  limit = pos 0;
  eval_delay = none;
  labels = [];
  checksum = [];
}

abbrev first_rule : AlertingRule ℕ
first_rule = record (new_rule 7) { alerts = (3, alert) ∷ [] }

-- Rule 7 holds an alert and stays, rule 8 is dropped, and rule 9 is new.
abbrev old_group : Group ℕ
old_group = group_of (first_rule ∷ new_rule 8 ∷ [])

abbrev next_group : Group ℕ
next_group = group_of (new_rule 7 ∷ new_rule 9 ∷ [])

first_rule-IsSound : IsSound first_rule
unfolding new_alerting_rule lookup
first_rule-IsSound = record { distinct = (refl, tt); keyed = λ id a h. ground (arith, h) }

-- The same rule in another group.
abbrev other_rule : AlertingRule ℕ
other_rule = new_alerting_rule (codes "other") (pos 30) (rule_of 7)

-- An alert of a third rule.
abbrev foreign_alert : AlertInstance ℕ
foreign_alert = record alert { rule_id = 8 }

restore-saved_example :
    let all = all_saved (foreign_alert ∷ []) first_rule [] in
    (load_active (rows (map (λ inst. row (state_row inst)) all) none)
      ≡ loaded (map forgotten all) none)
    × (lookup 3 (restore (map forgotten all) other_rule).alerts
        ≡ then_map (lookup 3 first_rule.alerts) resumed)
unfolding new_alerting_rule
restore-saved_example =
    restore-saved first_rule other_rule (foreign_alert ∷ []) [] 3 first_rule-IsSound
      ((λ e. absurd (ground (arith, e))), tt) tt refl refl

update_with_keeps_example :
    let (after, dropped) = update_with old_group next_group in
    Perm (alerts_of_rules old_group.rules) (alerts_of_rules after.rules ++ alerts_of_rules dropped)
unfolding new_alerting_rule
update_with_keeps_example = update_with_keeps old_group next_group (refl, (refl, tt))

update_with-dropped_example :
    let (after, dropped) = update_with old_group next_group in
    dropped ≡ without old_group.rules next_group.rules
unfolding new_alerting_rule has_rule
update_with-dropped_example =
    update_with-dropped old_group next_group (refl, (refl, tt)) (refl, (refl, tt))

abbrev env : Env ℕ
env = record {
  query = λ q e t. returned (metric ∷ []) none;
  templates = λ k t d. none;
  float_zero = 0;
  resend_delay = pos 60;
}

abbrev reading : AlertingRule ℕ → Reading
reading r = record { start = pos 100; query_duration = pos 1; duration = pos 2 }

-- The results of concurrent evaluations arrive the last one first.
abbrev backwards : List (Run ℕ) → List (Run ℕ)
backwards [] = []
backwards (run ∷ runs) = backwards runs ++ run ∷ []

abbrev goroutine : AlertingRule ℕ → Run ℕ
goroutine r = exec_goroutine env (λ e. []) reading (pos 100) (pos 0) r

-- The second rule executes first, and while the first one executes it sends.
overtaking :
    (r₁ r₂ : AlertingRule ℕ)
    → Schedule goroutine
        (pos 4)
        (spawned (r₁ ∷ r₂ ∷ []))
        (finished (goroutine r₂ ∷ goroutine r₁ ∷ []))
overtaking r₁ r₂ = goes _ _ _ (acquires (r₁ ∷ []) [] r₂ [] [] refl) (
    goes _ _ _ (acquires [] [] r₁ (r₂ ∷ []) [] refl) (
      goes _ _ _ (sends (r₁ ∷ []) [] r₂ [] [])
        (goes _ _ _ (sends [] [] r₁ [] (goroutine r₂ ∷ [])) (ends _))))

exec_rules_arrival_example :
    let (after, all, evals) =
      exec_rules env
        (λ e. [])
        reading
        backwards
        (codes "http")
        old_group.rules
        (pos 100)
        (pos 100)
        (pos 4)
        (pos 0) in
    let (after', all', evals') =
      exec_rules env
        (λ e. [])
        reading
        backwards
        (codes "http")
        old_group.rules
        (pos 100)
        (pos 100)
        (pos 1)
        (pos 0) in
    (after ≡ after') × Perm all all' × Perm evals evals'
exec_rules_arrival_example =
    exec_rules_arrival env (λ e. []) reading (pos 100) (pos 0) backwards (codes "http")
      old_group.rules (pos 100) (pos 4) (goroutine (new_rule 8) ∷ goroutine first_rule ∷ [])
      (overtaking first_rule (new_rule 8)) refl

-- The second rule has sent, and the first one waits for a place.
abbrev half_done : Pool ℕ
half_done = record { waiting = first_rule ∷ []; executing = []; sent = goroutine (new_rule 8) ∷ [] }

Schedule-completes_example :
    (sent : List (Run ℕ)) × Schedule goroutine (pos 2) half_done (finished sent)
    × Perm sent (map goroutine old_group.rules)
Schedule-completes_example = Schedule-completes goroutine (pos 2) old_group.rules half_done refl (
    goes _ _ _ (acquires (first_rule ∷ []) [] (new_rule 8) [] [] refl)
      (goes _ _ _ (sends [] [] (new_rule 8) (first_rule ∷ []) []) (ends _)))

abbrev no_retirements : Retirements ℕ
no_retirements = record { unwritten_writes = []; retired_rows_pending = 0 }

abbrev options : GroupOptions
options = record { default_interval = pos 60; external_labels = []; default_limit = pos 0 }

abbrev group_config : Config.Group
group_config = record {
  name = codes "http";
  interval = pos 60;
  rules = rule_of 7 ∷ [];
  labels = [];
  concurrency = pos 1;
  eval_delay = none;
  limit = none;
  connection = [];
  checksum = [];
  file = codes "a.yaml";
}

abbrev no_store : Option (StateStore ℕ ℕ)
no_store = none

abbrev http_id : ℕ
http_id = group_id (λ d. codes "1m0s") (codes "a.yaml") (codes "http") (pos 60)

reload_groups_unchanged_example :
    lookup http_id (
      reloaded no_store
        (pos 100)
        (λ d. codes "1m0s")
        options
        (group_config ∷ [])
        ((http_id, started_loop old_group) ∷ [])
        no_retirements
        0)
    ≡ some (started_loop old_group)
unfolding lookup insert registry group_id write text_eq made_group
reload_groups_unchanged_example =
    reload_groups_unchanged no_store (pos 100) (λ d. codes "1m0s") options (group_config ∷ [])
      ((http_id, started_loop old_group) ∷ []) no_retirements 0 http_id (started_loop old_group)
      (made_group (λ d. codes "1m0s") options group_config) refl refl refl
