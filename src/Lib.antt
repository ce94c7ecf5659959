-- ===== src/Lib.antt =====
-- chalert, an alerting engine that evaluates SQL rules against ClickHouse, and what is proved of it.
--
-- Rule files become groups of rules; a group evaluates its rules at each tick, keeps the alert
-- instances of each rule, sends those that are due to Alertmanager, and writes them to a state store.
-- A reload, which a change of the files, a signal or an HTTP request asks for, exchanges the rules of
-- running groups and retires those that are gone; a restart takes the saved alerts back. The files, and
-- the code that they model:
--   Datasource.antt   datasource/datasource.go: labels, rows, SetLabel, GetLabel, DelLabel
--   Datasource/ClickHouse  datasource/clickhouse.go: Query, QueryRange, mapRows and its helpers
--   Config.antt       config/config.go: the data of rule files; Config/Identity: normalizeExpr, HashRule,
--                     hashRuleWithExprHash, NormalizeRuleIDs; Config/Validation: Validate of rules and
--                     groups; Config/Substitution: envSubstitute; Config/Parsing: parse, Fingerprint;
--                     Config/Files: readFiles, ReadSnapshot, Parse
--   Rule/Instance     rule/rule.go: AlertInstance, AlertingRule, NewAlertingRule, GetAlerts, Restore
--   Rule/Labels       rule/rule.go: buildLabels, hashLabels, renderAnnotations
--   Rule/Exec         rule/rule.go: Exec and alertsToSend; Rule/Exec/Machine: what it does to one instance;
--                     Rule/Exec/Lapse: with the end that notifier/alertmanager.go gives an alert
--   Rule/ClickHouse   rule/rule.go over datasource/clickhouse.go: Exec with the querier of ClickHouse
--   Rule/Retire       rule/retire.go: Resolve, Flush, Unwritten
--   Rule/EvaluationLog  rule/evaluationlog.go: the lines of the evaluation log
--   Group.antt        rule/group.go: NewGroup, updateWith, Unclaimed, RestoreState; Group/Eval: execRules,
--                     execRecovered, evaluation, the function eval of Start, retireRules, Retire;
--                     Group/Eval/Schedule: the goroutines of a concurrent evaluation as steps;
--                     Group/Lifecycle: the loop of Start with its channels and ticker, Close, UpdateWith
--   StateStore.antt   statestore/clickhouse.go: Save, LoadActive, RecordHistory, EnsureTables
--   Notifier.antt     notifier/alertmanager.go: New, buildPayload, sendTo, Send
--   Chclient.antt     chclient/client.go: New, openConn, hasTLS, buildTLSConfig, Close
--   Web.antt          web/httpserver.go: SetReady, SetReloadFunc, the handlers of health, ready and reload
--   Main.antt         cmd/chalert/main.go: reloadGroups, persistAllState, redactDSN, parseExternalLabels;
--                     Main/Startup: main from its flags to the start of the groups; Main/Reload: the
--                     function reload; Main/Process: the start of the groups, and a run of the program
--                     as steps; Main/Requests: the channel of reload requests; Main/Shutdown: what a
--                     signal to stop does
--   Prelude, Time, Hash, Sort   strings, maps and integers of Go, `time`, `hash/fnv`, `sort`
--
-- How the model stands to the code. A string is the list of its bytes; a map is an association list,
-- whose order is the order in which Go ranges over it. An instant is the signed count of nanoseconds
-- since the zero time, without the monotonic clock; `Sub` saturates as it does in Go, and `Add` does
-- not wrap. `float64` is a parameter. `strings.Fields`, `TrimSpace` and `ToUpper` are modelled on
-- ASCII. A method that holds a mutex is one step, and so is an evaluation of a group, a reload, and
-- the start; a run of the program is a sequence of these steps in any order. A reload hands a group's
-- loop a definition, which the loop takes in a later step of its own. The life of one group has its
-- channels too: the receipt of an update is a step of its own there, and so are the calls of other
-- goroutines. Formatted errors are constructors with their
-- arguments. The query, the drivers, the file system (which does not change while files are read), the
-- values that a driver scans, YAML, the template engine, the state store, the HTTP client, JSON,
-- certificates, the clock, the environment and the order in which concurrent results arrive are
-- parameters.
--
-- All definitions are structurally recursive but the loop of `envSubstitute`, which need not end: it
-- has fuel, one unit for each round, and as many rounds as the text has percent signs, and one more,
-- are enough when no value has a percent sign. Parsing has that fuel for each file, and an error of
-- the model's own, `substitution_runs_on`, where it is not enough.
--
-- Not modelled: the conversion of durations for YAML, the routes of the HTTP server, metrics other than
-- those of a reload (metrics/metrics.go only registers them with a library), the flag package, signals,
-- the ticker of the configuration check, logging and tracing of any kind, the Helm chart and the
-- utilities of the tests.
pub mod Prelude
pub mod Time
pub mod Hash
pub mod Sort
pub mod Datasource
pub mod Config
pub mod Rule
pub mod Group
pub mod StateStore
pub mod Notifier
pub mod Main
pub mod Tests
pub mod Web
pub mod Chclient
