-- ===== src/Datasource/ClickHouse/Tests.antt =====
-- The data source of datasource/clickhouse.go on a small table.
use chalert.Prelude.{
  ℕ, zero, suc, ◌-ℤ◌, ◌≡◌, refl, List, [], ◌∷◌, length, All, none, text_eq, codes, ℤ, pos, negsuc,
  arith,
}
use chalert.Datasource.{Metric}
use chalert.Datasource.ClickHouse.{
  Column, Cell, text, nullable_text, integer, instant, scanned, Conversions, metrics, role_of,
  map_rows,
}
use chalert.Datasource.ClickHouse.Rows.{IsSample, map_rows-IsSample}

abbrev columns : List Column
columns =
    record { name = codes "service"; type_name = codes "String" }
    ∷ record { name = codes "count"; type_name = codes "UInt64" }
    ∷ record { name = codes "ts"; type_name = codes "DateTime" }
    ∷ record { name = codes "value"; type_name = codes "Int32" }
    ∷ record { name = codes "zone"; type_name = codes "LowCardinality(String)" }
    ∷ []

-- The zone is NULL.
abbrev row : ℕ → Cell ℤ
row zero = text (codes "api")
row (suc zero) = integer (pos 9)
row (suc (suc zero)) = instant (pos 62135596807000000000)
row (suc (suc (suc zero))) = integer (negsuc 4)
row (suc (suc (suc (suc n)))) = nullable_text none

abbrev conversions : Conversions ℤ
conversions = record { format = λ c. []; of_integer = λ n. n; of_unsigned = pos }

abbrev sample : Metric ℤ
sample = record {
  labels = record { name = codes "service"; value = codes "api" } ∷ [];
  timestamps = pos 7 ∷ [];
  values = negsuc 4 ∷ [];
}

mapped : map_rows conversions columns (pos 0) (scanned row ∷ []) none ≡ metrics (sample ∷ [])
unfolding map_rows text_eq ◌-ℤ◌ role_of
mapped = refl

map_rows-IsSample_example :
    All IsSample (sample ∷ []) × (length (sample ∷ []) ≡ length (scanned row ∷ []))
map_rows-IsSample_example =
    map_rows-IsSample conversions columns (pos 0) (scanned row ∷ []) none (sample ∷ [])
      (λ e. absurd (ground (arith, e))) mapped
