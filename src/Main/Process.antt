-- ===== src/Main/Process.antt =====
-- cmd/chalert/main.go: the program as a sequence of steps, from its start to its end. Each group's
-- loop evaluates it in a goroutine of its own. An evaluation, the taking of a definition, a reload up
-- to where every definition is received, and the final save are one step each, and every run is one
-- order of such steps. Flags and connections are in Main/Startup.
pub mod Own
pub mod Invariant
pub mod Configured
use chalert.Prelude.{
  ℕ, ◌≡◌, Bool, true, false, List, [], ◌∷◌, map, Option, none, some, Text, Map, lookup, insert,
  nat_eq, pos,
}
use chalert.Time.{Time, Duration}
use chalert.Config
use chalert.Config.Identity.{Result, ok, err, normalize_rule_ids}
use chalert.Config.Parsing.{Parsed, parsed, parse_error, parse, fingerprint}
use chalert.Rule.Instance.{AlertInstance, AlertingRule}
use chalert.Rule.Exec.{Env, ExecError}
use chalert.Rule.Retire.{Retirements, resolve}
use chalert.Group.{Group, GroupOptions, new_group, restore_state, unclaimed}
use chalert.Group.Eval.{Reading, Run, eval}
use chalert.Main.{Live, started_loop, finish}
use chalert.Main.Reload.{
  Snapshot, files, unreadable, Setup, Running, ReloadOutcome, unreadable_files, unparsed,
  unnormalized, reload,
}

pub data Startup (F W : Type 0) : Type 0 where
  started : Running F W → Startup F W
  refused : ReloadOutcome → Startup F W

module _ {F : Type 0} where
  -- The loop that makes the groups and restores the alerts of their rules.
  pub restored_groups :
      (Duration → Text)
      → GroupOptions
      → List (AlertInstance F)
      → List Config.Group
      → Map ℕ (Group F)
      → Map ℕ (Group F)
  restored_groups duration_string opts active [] groups = groups
  restored_groups duration_string opts active (cfg ∷ cfgs) groups =
      let g : Group F = restore_state active (new_group duration_string opts cfg) in
      restored_groups duration_string opts active cfgs (insert g.id g groups)

  -- The loop that starts them.
  pub start_loops : Map ℕ (Group F) → Map ℕ (Live F)
  start_loops [] = []
  start_loops ((id, g) ∷ groups) = (id, started_loop g) ∷ start_loops groups

module _ {F W : Type 0} (setup : Setup F W) where
  -- The groups start, and restored alerts that belong to no rule are resolved.
  unfoldable pub start_groups :
      Time → ℕ → List Config.Group → List (AlertInstance F) → W → Running F W
  unfolding restored_groups start_loops
  start_groups at fp cfgs active w =
      let groups = restored_groups setup.duration_string setup.options active cfgs [] in
      let (retirements, stored) =
        resolve setup.store at (unclaimed active (map (λ p. p.1) groups))
          (record { unwritten_writes = []; retired_rows_pending = 0 }) w in
      record {
        groups = start_loops groups;
        retirements = retirements;
        stored = stored;
        last_fp = fp;
        reload_errors = 0;
        reload_successes = 0;
        last_reload_success = pos 0;
        last_reload_successful = true;
      }

  unfoldable pub normalize_and_start :
      Time → ℕ → List Config.Group → List (AlertInstance F) → W → Startup F W
  unfolding start_groups
  normalize_and_start at fp cfgs active w = elim (normalize_rule_ids setup.query_hash cfgs) [
    | err e ↦ refused (unnormalized e)
    | ok cfgs' ↦ started (start_groups at fp cfgs' active w)
  ]

  -- `main`, with the alerts that `LoadActive` returns, up to where the groups run.
  unfoldable pub start : Time → Snapshot → List (AlertInstance F) → W → Startup F W
  unfolding normalize_and_start
  start at (unreadable e) active w = refused (unreadable_files e)
  start at (files contents) active w = elim (parse setup.yaml setup.fuel setup.getenv contents) [
    | parse_error e ↦ refused (unparsed e)
    | parsed cfgs ↦ normalize_and_start at (fingerprint contents) cfgs active w
  ]

  -- The tick `ts` of the group `g` that runs under `id`; what it sends and logs is left out here.
  pub evaluate_group :
      Env F
      → (ExecError → Text)
      → (AlertingRule F → Reading)
      → (List (Run F) → List (Run F))
      → Time
      → Time
      → ℕ
      → Group F
      → Running F W
      → Running F W
  evaluate_group env error_text clock arrive ts at id g r =
      let (g', retirements, stored, effects) =
        eval env error_text clock arrive setup.store g r.retirements r.stored ts at in
      record r {
        groups = insert id (started_loop g') r.groups;
        retirements = retirements;
        stored = stored;
      }

  -- The loop of the group under `id` takes the definition that it has received.
  pub take_definition : Time → ℕ → Live F → Running F W → Running F W
  unfolding finish
  take_definition at id l r =
      let (g, retirements, stored) = finish setup.store at l r.retirements r.stored in
      record r {
        groups = insert id (started_loop g) r.groups;
        retirements = retirements;
        stored = stored;
      }

  -- What a running program does next. A group whose loop has received a definition takes it before the
  -- loop comes to a tick, and meanwhile the other groups and the reloads go on. A reload is forced by
  -- SIGHUP and over HTTP.
  pub data Step : Running F W → Running F W → Type 0 where
    evaluates :
        (env : Env F) (error_text : ExecError → Text) (clock : AlertingRule F → Reading)
        (arrive : List (Run F) → List (Run F)) (ts at : Time) (id : ℕ) (g : Group F)
        (r : Running F W)
        → lookup id r.groups ≡ some (started_loop g)
        → Step r (evaluate_group env error_text clock arrive ts at id g r)
    takes :
        (at : Time) (id : ℕ) (l : Live F) (r : Running F W)
        → lookup id r.groups ≡ some l
        → Step r (take_definition at id l r)
    reloads :
        (at : Time) (force : Bool) (snapshot : Snapshot) (r : Running F W)
        → Step r (reload setup at force snapshot r).0

  pub data Reachable : Running F W → Type 0 where
    starts :
        (at : Time) (snapshot : Snapshot) (active : List (AlertInstance F)) (w : W)
        (r : Running F W)
        → start at snapshot active w ≡ started r
        → Reachable r
    steps : (r s : Running F W) → Reachable r → Step r s → Reachable s
