-- ===== src/Config.antt =====
-- config/config.go: rule files as data. YAML decoding is a parameter of Config/Parsing, and the file
-- system one of Config/Files.
pub mod Identity
pub mod Validation
pub mod Substitution
pub mod Parsing
pub mod Files
mod Tests
use chalert.Prelude.{ℕ, ℤ, List, Bool, not, ◌&&◌, Option, Text, is_empty, Map, codes, if◌then◌else◌}
use chalert.Time.{Duration}

-- A pointer field that may be nil is an `Option`.
pub record Rule : Type 0 where
  pub alert : Text
  pub expr : Text
  pub for_dur : Duration
  pub labels : Map Text Text
  pub annotations : Map Text Text
  pub keep_firing_for : Duration
  pub record_name : Text
  pub debug : Option Bool
  pub id : ℕ

pub record Group : Type 0 where
  pub name : Text
  pub interval : Duration
  pub rules : List Rule
  pub labels : Map Text Text
  pub concurrency : ℤ
  pub eval_delay : Option Duration
  pub limit : Option ℤ
  pub connection : Text
  pub checksum : Text
  pub file : Text

unfoldable rule_name : Rule → Text
rule_name r = if not (is_empty r.record_name) then r.record_name else r.alert

unfoldable pub is_alerting : Rule → Bool
is_alerting r = not (is_empty r.alert)

is_recording : Rule → Bool
is_recording r = not (is_empty r.record_name)
