-- ===== src/Config/Tests.antt =====
-- Tests of package config: its theorems at small rule files and environments.
use chalert.Prelude.{◌≡◌, ◌↔◌, refl, [], ◌∷◌, ◌++◌, map, All, none, some, Text, codes, pos, arith}
use chalert.Config.{Rule, Group}
use chalert.Config.Identity.{QueryHash, hashed, ok, normalize_rule_ids}
use chalert.Config.Identity.Normalized.{with_ids, HasDistinctIds}
use chalert.Config.Identity.Complete.{IsAnswered, normalize_rule_ids_iff}
use chalert.Config.Validation.{validate_group}
use chalert.Config.Validation.Exact.{IsValidGroup, validate_group_iff}
use chalert.Config.Substitution.{env_substitute, substitute_once}
use chalert.Config.Substitution.Finished.{env_substitute_ends}
use chalert.Config.Substitution.Endless.{reference, env_substitute_endless}

abbrev rule : Rule
rule = record {
  alert = codes "Down";
  expr = codes "SELECT 1";
  for_dur = pos 0;
  labels = [];
  annotations = [];
  keep_firing_for = pos 0;
  record_name = [];
  debug = none;
  id = 7;
}

abbrev group : Group
group = record {
  name = codes "http";
  interval = pos 60000000000;
  rules = rule ∷ [];
  labels = [];
  concurrency = pos 1;
  eval_delay = none;
  limit = none;
  connection = [];
  checksum = [];
  file = codes "a.yaml";
}

abbrev ask : QueryHash
ask expr = hashed 5

normalize_rule_ids_iff_example :
    let done = map (with_ids ask) (group ∷ []) in
    (normalize_rule_ids ask (group ∷ []) ≡ ok done) ↔ (
      All (λ g. All (IsAnswered ask) g.rules) (group ∷ [])
      × (done ≡ map (with_ids ask) (group ∷ []))
      × All (λ g. HasDistinctIds g.rules) done)
normalize_rule_ids_iff_example =
    normalize_rule_ids_iff ask (group ∷ []) (map (with_ids ask) (group ∷ []))

validate_group_iff_example : (validate_group group ≡ none) ↔ IsValidGroup group
validate_group_iff_example = validate_group_iff group

abbrev getenv : Text → Text
getenv name = codes "db"

env_substitute_ends_example :
    (out : Text) × (env_substitute 2 getenv (codes "x%{HOST}y") ≡ some out)
    × (substitute_once getenv out ≡ none)
env_substitute_ends_example =
    env_substitute_ends getenv 2 (codes "x%{HOST}y") (λ name. refl) (ground arith)

env_substitute_endless_example :
    env_substitute 1000 (λ name. reference (codes "A")) (reference (codes "A") ++ codes "x") ≡ none
env_substitute_endless_example =
    env_substitute_endless (λ name. reference (codes "A")) (codes "A") (codes "x") 1000
      ((λ e. ground arith), tt) refl
