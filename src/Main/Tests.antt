-- ===== src/Main/Tests.antt =====
-- The program of cmd/chalert/main.go with one rule file: its start, its reloads, and the requests for them.
use chalert.Prelude.{
  arith, ℕ, ◌+◌, ◌<◌, ◌≤◌, ◌≡◌, ◌≢◌, ◌⊎◌, refl, true, false, List, [], ◌∷◌, map, length, All, none,
  some, Text, text_eq, codes, lookup, insert, nat_eq, pos, if◌then◌else◌,
}
use chalert.Config
use chalert.Config.Identity.{hashed, hash_rule, hash_rule_with_expr_hash, normalize_rule_ids}
use chalert.Config.Validation.{is_query, validate_rule, validate_group}
use chalert.Config.Substitution.{env_substitute}
use chalert.Config.Parsing.{Yaml, failed_to_parse, parse}
use chalert.Hash.{write}
use chalert.Group.{Group, group_id, new_group, restore_state}
use chalert.Main.{Live, started_loop, reload_groups}
use chalert.Rule.Exec.Sound.{IsSound}
use chalert.Rule.Instance.{AlertInstance, firing, restore, new_alerting_rule}
use chalert.Sort.{sort_by}
use chalert.Config.{is_alerting}
use chalert.Main.Reload.{Snapshot, files, Setup, Running, ReloadOutcome, reloaded, unparsed, reload}
use chalert.Main.Reload.Outcome.{IsKept, IsTaken, reload_outcome}
use chalert.Main.Process.{Startup, started, refused, start, Reachable, starts, steps, reloads}
use chalert.Rule.Retire.{StateStore}
use chalert.Web.{handle_reload}
use chalert.Main.Requests.{
  Event, posted, loop_takes, registers, becomes_ready, initial, post_reload, handle, handle_all,
}
use chalert.Main.Requests.Served.{requests_served}
use chalert.Main.Process.Configured.{IsConfigured, IsPrompt, Reachable-IsConfigured}
use chalert.Main.Process.Invariant.{Reachable-groups}

abbrev rule : Config.Rule
rule = record {
  alert = codes "Down";
  expr = codes "SELECT 1";
  for_dur = pos 0;
  labels = [];
  annotations = [];
  keep_firing_for = pos 0;
  record_name = [];
  debug = none;
  id = 0;
}

abbrev group : Config.Group
group = record {
  name = codes "http";
  interval = pos 60;
  rules = rule ∷ [];
  labels = [];
  concurrency = pos 1;
  eval_delay = none;
  limit = none;
  connection = [];
  checksum = [];
  file = [];
}

-- The file with the text "good" has the group, the one with "more" has it with a limit, and no other
-- file can be decoded.
abbrev yaml : Yaml
yaml = record {
  decode = λ text.
      if text_eq text (codes "good")
      then record { documents = (group ∷ []) ∷ []; end_error = none }
      else if text_eq text (codes "more")
      then record {
        documents = (record group { limit = some (pos 3) } ∷ []) ∷ [];
        end_error = none;
      }
      else record { documents = []; end_error = some (codes "not YAML") };
  marshal = λ g. elim g.limit [ none ↦ g.name | some n ↦ [] ];
  hex = λ n. n ∷ [];
}

abbrev setup : Setup ℕ ℕ
setup = record {
  store = none;
  options = record { default_interval = pos 60; external_labels = []; default_limit = pos 0 };
  yaml = yaml;
  getenv = λ name. [];
  fuel = 3;
  query_hash = λ expr. hashed 5;
  duration_string = λ d. codes "1m0s";
}

abbrev snapshot_of : Text → Snapshot
snapshot_of content = files ((codes "a.yaml", content) ∷ [])

abbrev running_of : Startup ℕ ℕ → Running ℕ ℕ
running_of (started r) = r
running_of (refused o) = record {
  groups = [];
  retirements = record { unwritten_writes = []; retired_rows_pending = 0 };
  stored = 0;
  last_fp = 0;
  reload_errors = 0;
  reload_successes = 0;
  last_reload_success = pos 0;
  last_reload_successful = false;
}

-- An alert of the rule, as the program saved it before it stopped.
abbrev saved : AlertInstance ℕ
saved = record {
  id = 11;
  rule_id = hash_rule_with_expr_hash 5 rule;
  group_name = codes "http";
  alert_name = codes "Down";
  labels = [];
  annotations = [];
  state = firing;
  value = 1;
  expr = codes "SELECT 1";
  active_at = pos 20;
  fired_at = pos 20;
  resolved_at = pos 0;
  last_sent = pos 0;
  keep_firing_since = pos 0;
  for_dur = pos 0;
  evaluation_interval = pos 60;
}

abbrev at_start : Running ℕ ℕ
at_start = running_of (start setup (pos 100) (snapshot_of (codes "good")) (saved ∷ []) 0)

abbrev broken : Running ℕ ℕ × ReloadOutcome
broken = reload setup (pos 200) true (snapshot_of (codes "bad")) at_start

-- A broken file is refused.
broken_outcome : broken.1 ≡ unparsed (failed_to_parse (codes "a.yaml") (codes "not YAML"))
unfolding reload text_eq env_substitute parse validate_group validate_rule is_query
    normalize_rule_ids hash_rule lookup
broken_outcome = refl

-- The group with a limit is handed over.
abbrev again : Running ℕ ℕ × ReloadOutcome
again = reload setup (pos 200) true (snapshot_of (codes "more")) at_start

again_outcome : again.1 ≡ reloaded
unfolding reload text_eq env_substitute parse validate_group validate_rule is_query
    normalize_rule_ids hash_rule lookup
again_outcome = refl

reload_outcome_example :
    ((again.1 ≡ reloaded)
      × IsTaken setup (pos 200) true (snapshot_of (codes "more")) at_start again.0)
    ⊎ ((again.1 ≢ reloaded) × IsKept at_start again.0)
reload_outcome_example = reload_outcome setup (pos 200) true (snapshot_of (codes "more")) at_start

at_start-Reachable : Reachable setup at_start
unfolding start text_eq env_substitute parse validate_group validate_rule is_query
    normalize_rule_ids hash_rule lookup
at_start-Reachable = starts (pos 100) (snapshot_of (codes "good")) (saved ∷ []) 0 at_start refl

-- The states after the start and the reload.
again-Reachable : Reachable setup again.0
again-Reachable =
    steps at_start again.0 at_start-Reachable
      (reloads (pos 200) true (snapshot_of (codes "more")) at_start)

all_taken : (id : ℕ) (l : Live ℕ) → lookup id at_start.groups ≡ some l → l.taking ≡ none
unfolding start text_eq env_substitute parse validate_group validate_rule is_query
    normalize_rule_ids hash_rule lookup insert
all_taken id l e = ground (arith, e)

again-IsPrompt : IsPrompt setup again.0 again-Reachable
unfolding at_start-Reachable again-Reachable
again-IsPrompt = (all_taken, tt)

Reachable-IsConfigured_example : IsConfigured setup again.0
Reachable-IsConfigured_example = Reachable-IsConfigured setup again.0 again-Reachable again-IsPrompt

abbrev no_group : Group ℕ
no_group = record {
  id = 0;
  name = [];
  file = [];
  rules = [];
  interval = pos 0;
  concurrency = pos 1;
  limit = pos 0;
  eval_delay = none;
  labels = [];
  checksum = [];
}

abbrev http_id : ℕ
http_id = group_id (λ d. codes "1m0s") (codes "a.yaml") (codes "http") (pos 60)

abbrev first_loop : Running ℕ ℕ → Live ℕ
first_loop r = elim r.groups [ [] ↦ started_loop no_group | p ∷ ps ↦ p.1 ]

Reachable-groups_example :
    ((first_loop again.0).group.id ≡ http_id) × All IsSound (first_loop again.0).group.rules
unfolding reload text_eq env_substitute parse validate_group validate_rule is_query
    normalize_rule_ids hash_rule lookup start insert reload_groups new_group write restore_state
Reachable-groups_example =
    Reachable-groups setup again.0 http_id (first_loop again.0) again-Reachable refl

-- Before the server has its reload function a request is refused; of the next three, the last two
-- wait together.
abbrev before : List Event
before = posted ∷ registers ∷ becomes_ready ∷ posted ∷ loop_takes ∷ posted ∷ []

requests_served_example :
    let s = handle_all before initial in
    let u = handle loop_takes (handle_all (posted ∷ []) (post_reload s)) in
    (s.reloads < u.reloads) × (u.reloads + u.queued ≤ u.accepted) × (u.queued ≤ 1)
unfolding handle handle_reload initial
requests_served_example = requests_served before (posted ∷ []) refl refl

-- The saved alert is back.
restored : map (λ r. length r.alerts) (first_loop at_start).group.rules ≡ 1 ∷ []
unfolding text_eq env_substitute parse validate_group validate_rule is_query normalize_rule_ids
    hash_rule lookup start insert new_group restore_state is_alerting restore
    hash_rule_with_expr_hash sort_by write new_alerting_rule
restored = refl

-- The store counts the alerts that it saves.
abbrev store : StateStore ℕ ℕ
store = record {
  save = λ all w. (none, w + length all);
  load_active = λ w. ([], none);
  record_history = λ at all w. (none, w);
}
