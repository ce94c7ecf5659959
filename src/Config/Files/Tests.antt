-- ===== src/Config/Files/Tests.antt =====
-- Reading and parsing of package config at two files with two documents each, of the same names.
use chalert.Prelude.{
  given, ◌≡◌, refl, [], ◌∷◌, List, none, Text, text_eq, codes, pos, lookup, insert,
}
use chalert.Config.{Rule, Group}
use chalert.Config.Identity.{hash_rule}
use chalert.Config.Parsing.{Yaml, prepare, parse}
use chalert.Config.Files.{FileSystem, loaded, parse_patterns}
use chalert.Config.Files.Groups.{AreGroups, parse_patterns_lem}
use chalert.Config.Substitution.{env_substitute}
use chalert.Config.Validation.{validate_rule, is_query, validate_group}

abbrev rule : Rule
rule = record {
  alert = codes "Down";
  expr = codes "SELECT 1";
  for_dur = pos 0;
  labels = [];
  annotations = [];
  keep_firing_for = pos 0;
  record_name = [];
  debug = none;
  id = 0;
}

abbrev group : Group
group = record {
  name = codes "http";
  interval = pos 60;
  rules = rule ∷ [];
  labels = [];
  concurrency = pos 1;
  eval_delay = none;
  limit = none;
  connection = [];
  checksum = [];
  file = [];
}

abbrev yaml : Yaml
yaml = record {
  decode = λ text. record {
    documents = (group ∷ []) ∷ (record group { name = codes "grpc" } ∷ []) ∷ [];
    end_error = none;
  };
  marshal = λ g. g.name;
  hex = λ n. [];
}

-- Two files and a directory.
abbrev disk : FileSystem
disk = record {
  glob = λ p. given (codes "a.yaml" ∷ codes "old" ∷ codes "b.yaml" ∷ []);
  is_dir = λ path. given (text_eq path (codes "old"));
  read_file = λ path. given (codes "groups:");
}

abbrev patterns : List Text
patterns = codes "*" ∷ []

abbrev groups : List Group
groups =
    prepare yaml (codes "a.yaml") group
    ∷ prepare yaml (codes "a.yaml") (record group { name = codes "grpc" })
    ∷ prepare yaml (codes "b.yaml") group
    ∷ prepare yaml (codes "b.yaml") (record group { name = codes "grpc" })
    ∷ []

all_parsed : parse_patterns disk yaml 1 (λ name. []) patterns ≡ loaded groups
unfolding parse_patterns parse env_substitute validate_group validate_rule is_query text_eq lookup
    hash_rule insert
all_parsed = refl

parse_patterns_lem_example : AreGroups disk patterns yaml 1 (λ name. []) groups
parse_patterns_lem_example = parse_patterns_lem disk patterns yaml 1 (λ name. []) groups all_parsed
