-- ===== src/Rule/ClickHouse.antt =====
-- rule/rule.go over datasource/clickhouse.go: the evaluation of a rule whose querier is the one of
-- ClickHouse. `error_text` formats the error of a query.
mod Tests
use chalert.Prelude.{
  ℕ, ◌≡◌, ◌≢◌, refl, ap, sym, ◌∙◌, inl, inr, Bool-cases, List, [], ◌∷◌, length, All, Option, none,
  some, Option-cases, Text, sweep, ℤ, arith, if◌then◌else◌,
}
use chalert.Time.{Time, Duration}
use chalert.Datasource.{Metric, QuerierParams}
use chalert.Datasource.ClickHouse.{
  Conversions, Cursor, cursor, refused, Mapped, metrics, map_failed, map_rows, QueryError, Queried,
  result, query_error, as_result, query,
}
use chalert.Datasource.ClickHouse.Rows.{IsSample, map_rows-All}
use chalert.Rule.Instance.{AlertingRule, Alerts}
use chalert.Rule.Exec.{Env, QueryOutcome, returned, panicked, exec}
use chalert.Rule.Exec.Observe.{HasValue}
use chalert.Rule.Exec.Panics.{exec_returns}

abbrev as_outcome : {F : Type 0} → (QueryError → Text) → Queried F → QueryOutcome F
as_outcome error_text (result ms) = returned ms none
as_outcome error_text (query_error e) = returned [] (some (error_text e))

-- A rule that is given the querier of ClickHouse.
pub clickhouse_env :
    {F : Type 0} → Conversions F → (Text → Time → Cursor F) → (QueryError → Text) → Env F → Env F
clickhouse_env conv conn error_text env = record env {
  query = λ q expr ts. as_outcome error_text (query conv conn expr ts);
}

module _ {F : Type 0} where
  abbrev AllSamples : Queried F → Type 0
  AllSamples (result ms) = All IsSample ms
  AllSamples (query_error e) = Unit

  as_result-AllSamples :
      (r : Mapped F)
      → ((ms : List (Metric F)) → r ≡ metrics ms → All IsSample ms)
      → AllSamples (as_result r)
  as_result-AllSamples (metrics ms) h = h ms refl
  as_result-AllSamples (map_failed e) h = tt

  query-AllSamples :
      (conv : Conversions F) (conn : Text → Time → Cursor F) (expr : Text) (ts : Time)
      → AllSamples (query conv conn expr ts)
  unfolding query
  query-AllSamples conv conn expr ts = of_cursor (conn expr ts) refl
    where
      of_cursor : (c : Cursor F) → conn expr ts ≡ c → AllSamples (query conv conn expr ts)
      of_cursor (refused e) h = rw (h, query) tt
      of_cursor (cursor columns rows end) h =
          rw (h, query)
            (as_result-AllSamples (map_rows conv columns ts rows end)
              (map_rows-All conv columns ts rows end))

  HasValue-IsSample : (m : Metric F) → IsSample m → HasValue m
  HasValue-IsSample m s e = omega (arith, s.one_value, ap length e)

  All-HasValue : (ms : List (Metric F)) → All IsSample ms → All HasValue ms
  All-HasValue [] h = tt
  All-HasValue (m ∷ ms) h = (HasValue-IsSample m h.0, All-HasValue ms h.1)

  rows_of-HasValue :
      (error_text : QueryError → Text) (q : Queried F)
      → AllSamples q
      → (ms : List (Metric F)) × (e : Option Text) × (as_outcome error_text q ≡ returned ms e)
        × All HasValue ms
  rows_of-HasValue error_text (result ms) h = (ms, none, refl, All-HasValue ms h)
  rows_of-HasValue error_text (query_error e) h = ([], some (error_text e), refl, tt)

  -- An evaluation over the querier of ClickHouse never panics, whatever the driver gives it: an error
  -- of the query or of its rows comes back as an error, and every row has a value.
  pub exec_never_panics :
      (conv : Conversions F) (conn : Text → Time → Cursor F) (error_text : QueryError → Text)
      (env : Env F) (ar : AlertingRule F) (ts : Time) (limit : ℤ) (start : Time)
      (duration : Duration) (p : Text)
      → (exec (clickhouse_env conv conn error_text env) ar ts limit start duration).1 ≢ panicked p
  unfolding clickhouse_env
  exec_never_panics conv conn error_text env ar ts limit start duration p =
      let q = query conv conn ar.expr ts in
      let all = rows_of-HasValue error_text q (query-AllSamples conv conn ar.expr ts) in
      exec_returns (clickhouse_env conv conn error_text env) ar ts limit start duration all.0 all.1
        p all.2 all.3
