-- ===== src/Sort.antt =====
-- `sort.Strings` and `sort.Slice` by a string key, as insertion sort: on keys that differ, every
-- sorting algorithm returns the same list.
pub mod Order
use chalert.Prelude.{Bool, List, [], ◌∷◌, Text, text_lt, if◌then◌else◌}

module _ {A : Type 0} where
  pub insert_by : (A → Text) → A → List A → List A
  insert_by key x [] = x ∷ []
  insert_by key x (y ∷ l) = if text_lt (key y) (key x) then y ∷ insert_by key x l else x ∷ y ∷ l

  unfoldable pub sort_by : (A → Text) → List A → List A
  unfolding insert_by
  sort_by key [] = []
  sort_by key (x ∷ l) = insert_by key x (sort_by key l)

abbrev pub sort_strings : List Text → List Text
sort_strings = sort_by (λ s. s)
