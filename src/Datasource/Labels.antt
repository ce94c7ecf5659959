-- ===== src/Datasource/Labels.antt =====
-- The label methods of datasource.go form a dictionary on the names.
use chalert.Prelude.{
  ◌≡◌, refl, List, [], ◌∷◌, Text, text_eq, text_eq_iff, if◌then◌else◌, All, ◌≢◌, arith,
}
use chalert.Datasource.{Label, Metric, set_in, get_in, del_in, set_label, get_label, del_label}

get_in-set_in :
    (k j v : Text) (ls : List Label)
    → get_in j (set_in k v ls) ≡ (if text_eq k j then v else get_in j ls)
unfolding get_in set_in
get_in-set_in k j v [] = refl
get_in-set_in k j v (l ∷ ls) =
    ground
      (arith, text_eq_iff k j, text_eq_iff l.name k, text_eq_iff l.name j, get_in-set_in k j v ls)

-- No label name stands twice.
abbrev IsDistinctNames : List Label → Type 0
IsDistinctNames [] = Unit {0}
IsDistinctNames (l ∷ ls) = All (λ k. k.name ≢ l.name) ls × IsDistinctNames ls

get_in_absent : (k : Text) (ls : List Label) → All (λ l. l.name ≢ k) ls → get_in k ls ≡ []
unfolding get_in
get_in_absent k [] h = refl
get_in_absent k (l ∷ ls) h = ground (arith, text_eq_iff l.name k, get_in_absent k ls h.1)

All-name :
    (k j : Text) (ls : List Label) → k ≡ j → All (λ l. l.name ≢ k) ls → All (λ l. l.name ≢ j) ls
All-name k j [] e h = tt
All-name k j (l ∷ ls) e h = (λ p. h.0 (cc), All-name k j ls e h.1)

get_in-del_in :
    (k j : Text) (ls : List Label)
    → IsDistinctNames ls
    → get_in j (del_in k ls) ≡ (if text_eq k j then [] else get_in j ls)
unfolding get_in del_in
get_in-del_in k j [] d = ground arith
get_in-del_in k j (l ∷ ls) d = ground (
  arith,
  text_eq_iff k j,
  text_eq_iff l.name k,
  text_eq_iff l.name j,
  get_in_absent l.name ls d.0,
  get_in-del_in k j ls d.1,
)

module _ {F : Type 0} where
  -- Reading any label after `SetLabel` gives the value set for that key, and the old value for any
  -- other.
  pub get_label-set_label :
      (m : Metric F) (k j v : Text)
      → get_label (set_label m k v) j ≡ (if text_eq k j then v else get_label m j)
  unfolding get_label set_label
  get_label-set_label m k j v = get_in-set_in k j v m.labels

  -- If no name stands twice, reading after `DelLabel` gives "" for the deleted key, and the old
  -- value for any other.
  pub get_label-del_label :
      (m : Metric F) (k j : Text)
      → IsDistinctNames m.labels
      → get_label (del_label m k) j ≡ (if text_eq k j then [] else get_label m j)
  unfolding get_label del_label
  get_label-del_label m k j d = get_in-del_in k j m.labels d
