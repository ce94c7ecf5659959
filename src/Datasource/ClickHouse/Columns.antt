-- ===== src/Datasource/ClickHouse/Columns.antt =====
-- Which columns of a query become its value and its labels (datasource/clickhouse.go).
use chalert.Prelude.{
  ℕ, suc, ◌≡◌, Bool, true, false, ◌&&◌, List, [], ◌∷◌, ◌++◌, Option, none, some, Text, text_eq,
  codes, arith, if◌then◌else◌,
}
use chalert.Datasource.ClickHouse.{
  Column, Role, role_label, role_value, role_timestamp, role_of, classify,
}

abbrev is_value_role : Role → Bool
is_value_role role_value = true
is_value_role role_label = false
is_value_role role_timestamp = false

abbrev pub is_numeric : Column → Bool
is_numeric c = is_value_role (role_of c.type_name)

abbrev pub is_named_value : Column → Bool
is_named_value c = is_numeric c && text_eq c.name (codes "value")

-- The index of the first column that passes a test, and of the last one, from `i` on.
abbrev pub first_index : (Column → Bool) → ℕ → List Column → Option ℕ
first_index test i [] = none
first_index test i (c ∷ cs) = if test c then some i else first_index test (suc i) cs

abbrev pub last_index : (Column → Bool) → ℕ → List Column → Option ℕ
last_index test i [] = none
last_index test i (c ∷ cs) = elim (last_index test (suc i) cs) [
  | some j ↦ some j
  | none ↦ if test c then some i else none
]

abbrev pub or_else : Option ℕ → Option ℕ → Option ℕ
or_else none o = o
or_else (some i) o = some i

classify_from :
    (cs : List Column) (i : ℕ) (v t : Option ℕ)
    → (classify cs i v t).0
      ≡ or_else (last_index is_named_value i cs) (or_else v (first_index is_numeric i cs))
unfolding classify
classify_from [] i v t = ground arith
classify_from (c ∷ cs) i v t = ground (
  arith,
  classify_from cs (suc i) v t,
  classify_from cs (suc i) (some i) t,
  classify_from cs (suc i) v (some i),
)

-- The value of a query is its last numeric column with the name "value", or, if there is none, its
-- first numeric column; if there is no numeric column there is no value.
pub classify_value :
    (columns : List Column)
    → (classify columns 0 none none).0
      ≡ or_else (last_index is_named_value 0 columns) (first_index is_numeric 0 columns)
classify_value columns = classify_from columns 0 none none

-- Any type whose name begins with "DateTime(", such as a DateTime with a time zone, is read as a label,
-- and so is any whose name begins with "Nullable("; any whose name begins with "Interval" is read as a
-- number.
pub role_of_wrapped :
    (rest : Text)
    → (role_of (codes "DateTime(" ++ rest) ≡ role_label)
      × (role_of (codes "Nullable(" ++ rest) ≡ role_label)
      × (role_of (codes "Interval" ++ rest) ≡ role_value)
unfolding role_of text_eq
role_of_wrapped rest = (ground arith, ground arith, ground arith)
