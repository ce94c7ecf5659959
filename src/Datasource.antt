-- ===== src/Datasource.antt =====
-- datasource/datasource.go: the rows that a query returns, and the operations on their labels.
pub mod Labels
pub mod ClickHouse
use chalert.Prelude.{ℕ, ℤ, Bool, List, [], ◌∷◌, ◌++◌, Text, text_eq, Map, Option, if◌then◌else◌}
use chalert.Time.{Duration}

pub record Label : Type 0 where
  pub name : Text
  pub value : Text

-- `F` stands for `float64`, whose values the program copies and never computes with.
pub record Metric (F : Type 0) : Type 0 where
  pub labels : List Label
  pub timestamps : List ℤ
  pub values : List F

set_in : Text → Text → List Label → List Label
set_in key value [] = record { name = key; value = value } ∷ []
set_in key value (l ∷ ls) =
    if text_eq l.name key then record l { value = value } ∷ ls else l ∷ set_in key value ls

get_in : Text → List Label → Text
get_in key [] = []
get_in key (l ∷ ls) = if text_eq l.name key then l.value else get_in key ls

del_in : Text → List Label → List Label
del_in key [] = []
del_in key (l ∷ ls) = if text_eq l.name key then ls else l ∷ del_in key ls

module _ {F : Type 0} where
  -- The three methods change or read the first label with the key.
  pub set_label : Metric F → Text → Text → Metric F
  unfolding set_in
  set_label m key value = record m { labels = set_in key value m.labels }

  pub get_label : Metric F → Text → Text
  unfolding get_in
  get_label m key = get_in key m.labels

  pub del_label : Metric F → Text → Metric F
  unfolding del_in
  del_label m key = record m { labels = del_in key m.labels }

-- `Result` of a query; `rows_examined` is a pointer that may be nil.
pub record QueryResult (F : Type 0) : Type 0 where
  pub data_rows : List (Metric F)
  pub rows_examined : Option ℕ

pub record QuerierParams : Type 0 where
  pub evaluation_interval : Duration
  pub query_params : Map Text Text
  pub debug : Bool
