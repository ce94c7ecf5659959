-- ===== src/Rule/ClickHouse/Tests.antt =====
-- A rule over the data source of ClickHouse (rule/rule.go, datasource/clickhouse.go) at one row.
use chalert.Prelude.{◌≢◌, [], ◌∷◌, none, Text, codes, ℤ, pos}
use chalert.Time.{Time}
use chalert.Rule.Instance.{AlertingRule, new_alerting_rule}
use chalert.Rule.Exec.{Env, returned, panicked, exec}
use chalert.Datasource.ClickHouse.{Conversions, Cursor, cursor, integer, scanned, QueryError}
use chalert.Rule.ClickHouse.{clickhouse_env, exec_never_panics}

abbrev rule : AlertingRule ℤ
rule = new_alerting_rule (codes "http") (pos 60) (record {
  alert = codes "Down";
  expr = codes "SELECT 1";
  for_dur = pos 0;
  labels = [];
  annotations = [];
  keep_firing_for = pos 0;
  record_name = [];
  debug = none;
  id = 7;
})

abbrev env : Env ℤ
env = record {
  query = λ q e t. returned [] none;
  templates = λ k t d. none;
  float_zero = pos 0;
  resend_delay = pos 60;
}

abbrev conversions : Conversions ℤ
conversions = record { format = λ c. []; of_integer = λ n. n; of_unsigned = pos }

abbrev connection : Text → Time → Cursor ℤ
connection expr ts =
    cursor (record { name = codes "n"; type_name = codes "Int64" } ∷ [])
      (scanned (λ i. integer (pos 3)) ∷ []) none

abbrev error_text : QueryError → Text
error_text e = codes "query failed"

exec_never_panics_example :
    (exec
      (clickhouse_env conversions connection error_text env)
      rule
      (pos 100)
      (pos 10)
      (pos 100)
      (pos 1)).1
    ≢ panicked (codes "index out of range")
exec_never_panics_example =
    exec_never_panics conversions connection error_text env rule (pos 100) (pos 10) (pos 100)
      (pos 1) (codes "index out of range")
