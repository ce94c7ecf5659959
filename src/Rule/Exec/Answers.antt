-- ===== src/Rule/Exec/Answers.antt =====
-- What `Exec` of rule/rule.go meets outside the rule, and how it ends.
use chalert.Prelude.{ℕ, List, Option, Text, codes, Map, nat_eq, ℤ}
use chalert.Time.{Time, Duration}
use chalert.Datasource.{Metric, QuerierParams}
use chalert.Rule.Instance.{AlertInstance}
use chalert.Rule.Labels.{Templates}

-- How a query ends: rows and perhaps an error, or a panic of the querier.
pub data QueryOutcome (F : Type 0) : Type 0 where
  returned : List (Metric F) → Option Text → QueryOutcome F
  query_panics : Text → QueryOutcome F

-- What an evaluation meets: the data source, the template engine, the zero of `float64`, and the
-- resend delay that is set at startup.
pub record Env (F : Type 0) : Type 0 where
  pub query : QuerierParams → Text → Time → QueryOutcome F
  pub templates : Templates F
  pub float_zero : F
  pub resend_delay : Duration

pub data ExecError : Type 0 where
  query_failed : Text → Text → ExecError
  too_many_rows : Text → ℕ → ℤ → ExecError
  duplicate_labels : Text → Map Text Text → ExecError
  limit_exceeded : Text → ℤ → ℕ → ExecError

-- `panicked` is a run-time panic that leaves the function.
pub data ExecResult (F : Type 0) : Type 0 where
  to_send : List (AlertInstance F) → ExecResult F
  failed : ExecError → ExecResult F
  panicked : Text → ExecResult F

-- Why the loop over the rows stops early: a label set that a row before had, or a row without a
-- value (an index out of range at `m.Values[0]`).
pub data Stop : Type 0 where
  duplicate : Map Text Text → Stop
  no_value : Stop

abbrev pub stop_result : {F : Type 0} → Text → Stop → ExecResult F
stop_result name (duplicate labels) = failed (duplicate_labels name labels)
stop_result name no_value = panicked (codes "index out of range")
