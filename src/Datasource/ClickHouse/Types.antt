-- ===== src/Datasource/ClickHouse/Types.antt =====
-- datasource/clickhouse.go: what a column is for, by the name of its ClickHouse type.
use chalert.Prelude.{
  Bool, false, ◌&&◌, ◌||◌, ltb, leb, List, [], ◌∷◌, length, take, Text, text_eq, codes,
  if◌then◌else◌,
}

-- The test `len(s) >= len(p) && s[:len(p)] == p`.
abbrev has_prefix : Text → Text → Bool
has_prefix p s = leb (length p) (length s) && text_eq (take (length p) s) p

abbrev is_one_of : Text → List Text → Bool
is_one_of s [] = false
is_one_of s (t ∷ ts) = text_eq s t || is_one_of s ts

-- `len(typeName) > 15 && typeName[:15] == "LowCardinality("`.
is_string_type : Text → Bool
is_string_type s =
    is_one_of s (
      codes "String"
      ∷ codes "FixedString"
      ∷ codes "UUID"
      ∷ codes "IPv4"
      ∷ codes "IPv6"
      ∷ codes "Enum8"
      ∷ codes "Enum16"
      ∷ [])
    || (ltb 15 (length s) && text_eq (take 15 s) (codes "LowCardinality("))

is_numeric_type : Text → Bool
is_numeric_type s =
    is_one_of s (codes "Float32" ∷ codes "Float64" ∷ [])
    || has_prefix (codes "UInt") s
    || has_prefix (codes "Int") s
    || has_prefix (codes "Decimal") s

is_date_time_type : Text → Bool
is_date_time_type s =
    is_one_of s (codes "DateTime" ∷ codes "Date" ∷ codes "Date32" ∷ [])
    || has_prefix (codes "DateTime64") s

pub data Role : Type 0 where
  role_label role_value role_timestamp : Role

unfoldable pub role_of : Text → Role
unfolding is_string_type is_numeric_type is_date_time_type
role_of s =
    if is_string_type s
    then role_label
    else if is_numeric_type s
    then role_value
    else if is_date_time_type s
    then role_timestamp
    else role_label
