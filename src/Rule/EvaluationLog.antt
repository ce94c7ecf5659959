-- ===== src/Rule/EvaluationLog.antt =====
-- rule/evaluationlog.go: the lines of the evaluation log. Writing them as JSON (`log/slog`) is left
-- out, and `format_time` stands for the format of `time.RFC3339Nano` in UTC.
use chalert.Prelude.{ℕ, Bool, List, map, Text, length, ltb, take, if◌then◌else◌}
use chalert.Time.{Time, Duration}
use chalert.Rule.Instance.{Evaluation}

abbrev max_evaluation_error_len : ℕ
max_evaluation_error_len = 1024

-- `rule_id` is written as a decimal string, `duration_ms` from the duration.
pub record LogLine : Type 0 where
  pub rule_id : ℕ
  pub group : Text
  pub alert : Text
  pub evaluated_at : Text
  pub duration : Duration
  pub ok : Bool
  pub samples : ℕ
  pub error : Text

module _ (format_time : Time → Text) where
  log_line : Evaluation → LogLine
  log_line e = record {
    rule_id = e.rule_id;
    group = e.group_name;
    alert = e.alert_name;
    evaluated_at = format_time e.evaluated_at;
    duration = e.duration;
    ok = e.ok;
    samples = e.samples;
    error =
        if ltb max_evaluation_error_len (length e.error)
        then take max_evaluation_error_len e.error
        else e.error;
  }

  -- `RecordEvaluations`.
  unfoldable record_evaluations : List Evaluation → List LogLine
  unfolding log_line
  record_evaluations evals = map log_line evals
