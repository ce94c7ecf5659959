-- ===== src/Datasource/ClickHouse.antt =====
-- datasource/clickhouse.go: a query's rows as metrics. The driver is a parameter: it gives the
-- columns, and for each row the values that it scanned, which reflection would find; so are `fmt`
-- and the conversions to `float64`. The query's parameter and logging are left out.
mod Types
unfoldable pub use Types.*
pub mod Columns
pub mod Rows
mod Tests
use chalert.Prelude.{
  ℕ, zero, suc, ◌+◌, ◌-◌, ◌/◌, Bool, true, false, ◌&&◌, ◌||◌, ltb, leb, List, [], ◌∷◌, ◌++◌, length,
  map, take, Option, none, some, Text, text_eq, is_empty, codes, ℤ, pos, negsuc, ◌-ℤ◌,
  if◌then◌else◌,
}
use chalert.Time.{Time}
use chalert.Datasource.{Label, Metric}

pub record Column : Type 0 where
  pub name : Text
  pub type_name : Text

-- A value behind its scan target, by its Go type: `text` and `nullable_text` are string and *string.
pub data Cell (F : Type 0) : Type 0 where
  text : Text → Cell F
  nullable_text : Option Text → Cell F
  float : F → Cell F
  integer : ℤ → Cell F
  unsigned : ℕ → Cell F
  instant : Time → Cell F
  other : Text → Cell F

-- A row as it is scanned: the cell at each position, or an error.
pub data Scan (F : Type 0) : Type 0 where
  scanned : (ℕ → Cell F) → Scan F
  scan_failed : Text → Scan F

-- What the driver gives for a query: its columns, its rows, and the error after the last of them.
pub data Cursor (F : Type 0) : Type 0 where
  cursor : List Column → List (Scan F) → Option Text → Cursor F
  refused : Text → Cursor F

-- What the library code does that the queries rely on: `%v`, and the two conversions to `float64`.
pub record Conversions (F : Type 0) : Type 0 where
  pub format : Cell F → Text
  pub of_integer : ℤ → F
  pub of_unsigned : ℕ → F

-- The index after the column at `i`: a column with the preferred name wins, and otherwise the first.
abbrev prefer : Text → Column → ℕ → Option ℕ → Option ℕ
prefer name c i none = some i
prefer name c i (some j) = if text_eq c.name name then some i else some j

-- The loop that classifies the columns: the indices of the value and of the timestamp; `none` is -1.
pub classify : List Column → ℕ → Option ℕ → Option ℕ → Option ℕ × Option ℕ
classify [] i value_idx ts_idx = (value_idx, ts_idx)
classify (c ∷ cs) i value_idx ts_idx = elim (role_of c.type_name) [
  | role_label ↦ classify cs (suc i) value_idx ts_idx
  | role_value ↦ classify cs (suc i) (prefer (codes "value") c i value_idx) ts_idx
  | role_timestamp ↦ classify cs (suc i) value_idx (prefer (codes "ts") c i ts_idx)
]

-- `Unix`: whole seconds since 1970, rounded down; instants count from the year 1.
abbrev seconds : ℤ → ℤ
seconds (pos n) = pos (n / 1000000000)
seconds (negsuc n) = negsuc (n / 1000000000)

abbrev unix : Time → ℤ
unix t = seconds t -ℤ pos 62135596800

pub data MapError : Type 0 where
  no_numeric_column : List Text → MapError
  scanning_row : Text → MapError
  not_a_number : Text → MapError
  iterating_rows : Text → MapError

pub data Mapped (F : Type 0) : Type 0 where
  metrics : List (Metric F) → Mapped F
  map_failed : MapError → Mapped F

module _ {F : Type 0} (conv : Conversions F) where
  deref_to_string : Cell F → Text
  deref_to_string (text s) = s
  deref_to_string (nullable_text none) = []
  deref_to_string (nullable_text (some s)) = s
  deref_to_string (float x) = conv.format (float x)
  deref_to_string (integer n) = conv.format (integer n)
  deref_to_string (unsigned n) = conv.format (unsigned n)
  deref_to_string (instant t) = conv.format (instant t)
  deref_to_string (other s) = conv.format (other s)

  -- `none` is an error.
  deref_to_float64 : Cell F → Option F
  deref_to_float64 (float x) = some x
  deref_to_float64 (integer n) = some (conv.of_integer n)
  deref_to_float64 (unsigned n) = some (conv.of_unsigned n)
  deref_to_float64 (text s) = none
  deref_to_float64 (nullable_text s) = none
  deref_to_float64 (instant t) = none
  deref_to_float64 (other s) = none

  -- The labels of a row, from the column at `i` on.
  row_labels : List Column → ℕ → (ℕ → Cell F) → List Label
  unfolding deref_to_string
  row_labels [] i row = []
  row_labels (c ∷ cs) i row =
      let rest = row_labels cs (suc i) row in
      let val = deref_to_string (row i) in
      elim (role_of c.type_name) [
        | role_label ↦ if is_empty val then rest else record { name = c.name; value = val } ∷ rest
        | role_value ↦ rest
        | role_timestamp ↦ rest
      ]

module _ {F : Type 0} where
  -- `derefToTime`; `none` is its second result, false.
  deref_to_time : Cell F → Option Time
  deref_to_time (instant t) = some t
  deref_to_time (text s) = none
  deref_to_time (nullable_text s) = none
  deref_to_time (float x) = none
  deref_to_time (integer n) = none
  deref_to_time (unsigned n) = none
  deref_to_time (other s) = none

  row_time : Time → Option ℕ → (ℕ → Cell F) → Time
  unfolding deref_to_time
  row_time eval_ts none row = eval_ts
  row_time eval_ts (some i) row = elim (deref_to_time (row i)) [ some t ↦ t | none ↦ eval_ts ]

  abbrev with_metric : Metric F → Mapped F → Mapped F
  with_metric m (metrics ms) = metrics (m ∷ ms)
  with_metric m (map_failed e) = map_failed e

  module _ (conv : Conversions F) (columns : List Column) (eval_ts : Time) where
    -- The loop over the rows.
    read_rows : Text → ℕ → Option ℕ → List (Scan F) → Option Text → Mapped F
    unfolding row_labels row_time deref_to_float64
    read_rows value_name value_idx ts_idx [] none = metrics []
    read_rows value_name value_idx ts_idx [] (some e) = map_failed (iterating_rows e)
    read_rows value_name value_idx ts_idx (scan_failed e ∷ rest) end = map_failed (scanning_row e)
    read_rows value_name value_idx ts_idx (scanned row ∷ rest) end =
        elim (deref_to_float64 conv (row value_idx)) [
          | none ↦ map_failed (not_a_number value_name)
          | some v ↦
              with_metric
                (record {
                  labels = row_labels conv columns 0 row;
                  timestamps = unix (row_time eval_ts ts_idx row) ∷ [];
                  values = v ∷ [];
                })
                (read_rows value_name value_idx ts_idx rest end)
        ]

abbrev name_at : List Column → ℕ → Text
name_at [] i = []
name_at (c ∷ cs) zero = c.name
name_at (c ∷ cs) (suc i) = name_at cs i

pub data QueryError : Type 0 where
  query_execution_failed : Text → QueryError
  mapping_results : MapError → QueryError

pub data Queried (F : Type 0) : Type 0 where
  result : List (Metric F) → Queried F
  query_error : QueryError → Queried F

module _ {F : Type 0} where
  abbrev pub as_result : Mapped F → Queried F
  as_result (metrics ms) = result ms
  as_result (map_failed e) = query_error (mapping_results e)

  module _ (conv : Conversions F) where
    -- The rows, once the columns are classified.
    map_classified :
        List Column → Time → Option ℕ × Option ℕ → List (Scan F) → Option Text → Mapped F
    unfolding read_rows
    map_classified columns eval_ts (none, ts_idx) rows end =
        map_failed (no_numeric_column (map (λ c. c.name) columns))
    map_classified columns eval_ts (some i, ts_idx) rows end =
        read_rows conv columns eval_ts (name_at columns i) i ts_idx rows end

    -- `mapRows`.
    pub map_rows : List Column → Time → List (Scan F) → Option Text → Mapped F
    unfolding map_classified classify
    map_rows [] eval_ts rows end = metrics []
    map_rows (c ∷ cs) eval_ts rows end =
        map_classified (c ∷ cs) eval_ts (classify (c ∷ cs) 0 none none) rows end

    -- `Query`; `conn` runs the expression at the instant of the evaluation.
    unfoldable pub query : (Text → Time → Cursor F) → Text → Time → Queried F
    unfolding map_rows
    query conn expr ts = elim (conn expr ts) [
      | refused e ↦ query_error (query_execution_failed e)
      | cursor columns rows end ↦ as_result (map_rows columns ts rows end)
    ]

    -- `QueryRange` runs the query at the end of the range.
    unfoldable query_range : (Text → Time → Cursor F) → Text → Time → Time → Queried F
    unfolding query
    query_range conn expr start end = query conn expr end

-- `truncate`, whose result only a log line shows.
unfoldable truncate : Text → ℕ → Text
truncate s n = if leb (length s) n then s else take n s ++ codes "..."
