-- ===== src/Group/Merge.antt =====
-- The labels that rule/group.go gives the rules of a group: which of the three sources wins.
use chalert.Prelude.{
  ◌≡◌, refl, inl, inr, [], ◌∷◌, Option, none, some, Text, Map, lookup, insert, lookup-insert,
  IsDistinct, text_Eq, text_eq_iff, Option-cases, arith,
}
use chalert.Group.{overwrite, fill, effective_labels}

abbrev pub or_else : {A : Type 0} → Option A → Option A → Option A
or_else none o = o
or_else (some a) o = some a

lookup-fill :
    (k : Text) (extra into : Map Text Text)
    → lookup k (fill extra into) ≡ or_else (lookup k into) (lookup k extra)
unfolding fill lookup
lookup-fill k [] into = ground arith
lookup-fill k ((j, v) ∷ rest) into = elim (Option-cases (lookup j into)) [
  | inl e ↦
      ground
        (arith, lookup-fill k rest (insert j v into), lookup-insert j k v into, text_eq_iff j k)
  | inr (w, e) ↦ ground (arith, lookup-fill k rest into, text_eq_iff j k)
]

lookup-overwrite :
    (k : Text) (extra into : Map Text Text)
    → IsDistinct extra
    → lookup k (overwrite extra into) ≡ or_else (lookup k extra) (lookup k into)
unfolding overwrite lookup
lookup-overwrite k [] into d = refl
lookup-overwrite k ((j, v) ∷ rest) into d = ground (
  arith,
  lookup-overwrite k rest (insert j v into) d.1,
  lookup-insert j k v into,
  text_eq_iff j k,
)

-- When no name stands twice in the external labels and none in the group's, a rule of the group has
-- under each name its own label, or else the group's, or else the external one.
pub effective_labels_lem :
    (k : Text) (external group own : Map Text Text)
    → IsDistinct external
    → IsDistinct group
    → lookup k (effective_labels external group own)
      ≡ or_else (lookup k own) (or_else (lookup k group) (lookup k external))
unfolding effective_labels lookup
effective_labels_lem k external group own de dg = ground (
  arith,
  lookup-fill k (overwrite group (overwrite external [])) own,
  lookup-overwrite k group (overwrite external []) dg,
  lookup-overwrite k external [] de,
)
