-- ===== src/Rule.antt =====
-- Package rule: alerting rules (rule.go), the retirement of rules (retire.go) and the evaluation
-- log (evaluationlog.go). Groups (group.go) are in Group.antt.
pub mod Instance
pub mod Labels
pub mod Exec
pub mod Retire
pub mod ClickHouse
pub mod EvaluationLog
mod Tests
