-- ===== src/Main/Reload.antt =====
-- cmd/chalert/main.go: the function `reload`, which reads the rule files again, and the metrics that it
-- sets. Reading the files, parsing YAML, the hash of a query and the clock are parameters.
pub mod Outcome
use chalert.Prelude.{
  ℕ, ◌+◌, Bool, true, false, not, ◌&&◌, ◌==◌, List, [], ◌∷◌, Option, none, some, Text, Map,
  if◌then◌else◌,
}
use chalert.Time.{Time, Duration}
use chalert.Config
use chalert.Config.Identity.{QueryHash, NormalizeError, Result, ok, err, normalize_rule_ids}
use chalert.Config.Parsing.{Yaml, ParseError, Parsed, parsed, parse_error, parse, fingerprint}
use chalert.Rule.Retire.{StateStore, Retirements}
use chalert.Group.{GroupOptions}
use chalert.Main.{Live, reload_groups}

-- What `ReadSnapshot` gives: the contents by path, or an error.
pub data Snapshot : Type 0 where
  files : Map Text Text → Snapshot
  unreadable : Text → Snapshot

-- What stays the same while the program runs.
pub record Setup (F W : Type 0) : Type 0 where
  pub store : Option (StateStore F W)
  pub options : GroupOptions
  pub yaml : Yaml
  pub getenv : Text → Text
  pub fuel : ℕ
  pub query_hash : QueryHash
  pub duration_string : Duration → Text

-- What a reload changes: the groups, their retirements and their store, and the metrics.
pub record Running (F W : Type 0) : Type 0 where
  pub groups : Map ℕ (Live F)
  pub retirements : Retirements F
  pub stored : W
  pub last_fp : ℕ
  pub reload_errors : ℕ
  pub reload_successes : ℕ
  pub last_reload_success : Time
  pub last_reload_successful : Bool

pub data ReloadOutcome : Type 0 where
  unchanged reloaded : ReloadOutcome
  unreadable_files : Text → ReloadOutcome
  unparsed : ParseError → ReloadOutcome
  unnormalized : NormalizeError → ReloadOutcome

module _ {F W : Type 0} where
  abbrev pub failed_reload : Running F W → ReloadOutcome → Running F W × ReloadOutcome
  failed_reload r outcome =
      (record r { reload_errors = r.reload_errors + 1; last_reload_successful = false }, outcome)

  module _ (setup : Setup F W) (at : Time) where
    -- The groups take their new definitions.
    unfoldable pub take_groups : ℕ → List Config.Group → Running F W → Running F W × ReloadOutcome
    take_groups fp cfgs r =
        let (groups, retirements, stored) =
          reload_groups setup.store at setup.duration_string setup.options cfgs r.groups
            r.retirements r.stored in
        (
          record r {
            groups = groups;
            retirements = retirements;
            stored = stored;
            last_fp = fp;
            reload_successes = r.reload_successes + 1;
            last_reload_success = at;
            last_reload_successful = true;
          },
          reloaded,
        )

    unfoldable pub normalize_and_take :
        ℕ → List Config.Group → Running F W → Running F W × ReloadOutcome
    unfolding take_groups
    normalize_and_take fp cfgs r = elim (normalize_rule_ids setup.query_hash cfgs) [
      | err e ↦ failed_reload r (unnormalized e)
      | ok cfgs' ↦ take_groups fp cfgs' r
    ]

    unfoldable pub parse_and_take : ℕ → Map Text Text → Running F W → Running F W × ReloadOutcome
    unfolding normalize_and_take
    parse_and_take fp contents r = elim (parse setup.yaml setup.fuel setup.getenv contents) [
      | parse_error e ↦ failed_reload r (unparsed e)
      | parsed cfgs ↦ normalize_and_take fp cfgs r
    ]

    -- `reload`, without its logging; `at` is what the clock shows.
    unfoldable pub reload : Bool → Snapshot → Running F W → Running F W × ReloadOutcome
    unfolding parse_and_take
    reload force (unreadable e) r = failed_reload r (unreadable_files e)
    reload force (files contents) r =
        let fp = fingerprint contents in
        if not force && fp == r.last_fp then (r, unchanged) else parse_and_take fp contents r
