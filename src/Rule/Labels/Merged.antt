-- ===== src/Rule/Labels/Merged.antt =====
-- What `buildLabels` of rule/rule.go gives under each name, and where it depends on the order in
-- which Go ranges over a map.
use chalert.Prelude.{
  ◌≡◌, ◌≢◌, ◌⊎◌, refl, ap, subst, ◌∙◌, inl, inr, true, false, List, [], ◌∷◌, ◌++◌, Option, none,
  some, Text, codes, is_empty, Map, lookup, insert, lookup-insert, text_Eq, text_eq, text_eq_iff,
  IsDistinct, Option-cases, arith, Bool-cases, if◌then◌else◌,
}
use chalert.Datasource.{Label}
use chalert.Rule.Labels.{build_labels, set_labels, merge_extra, export_conflict}

-- A rule's own labels that are not empty, and whose names none of the other ones takes when it
-- moves a dimension to "exported_".
abbrev Unexported : Text → Map Text Text → Type 0
Unexported k [] = Unit
Unexported k ((j, v) ∷ extra) = (codes "exported_" ++ j ≢ k) × Unexported k extra

lookup-export :
    (j v k : Text) (labels : Map Text Text)
    → codes "exported_" ++ j ≢ k
    → lookup k (export_conflict j v labels) ≡ lookup k labels
unfolding export_conflict
lookup-export j v k labels ne = elim (Option-cases (lookup j labels)) [
  | inl e ↦ ground arith
  | inr (orig, e) ↦ ground (
    arith,
    lookup-insert (codes "exported_" ++ j) k orig labels,
    text_eq_iff (codes "exported_" ++ j) k,
  )
]

-- The value that a rule's labels give a name: theirs, unless it is empty or missing.
abbrev pub overridden : Option Text → Option Text → Option Text
overridden none dimension = dimension
overridden (some v) dimension = if is_empty v then dimension else some v

lookup-merge_absent :
    (k : Text) (extra labels : Map Text Text)
    → Unexported k extra
    → lookup k extra ≡ none
    → lookup k (merge_extra extra labels) ≡ lookup k labels
unfolding merge_extra lookup
lookup-merge_absent k [] labels u h = refl
lookup-merge_absent k ((j, v) ∷ extra) labels u h =
    let next = if is_empty v then labels else insert j v (export_conflict j v labels) in
    lookup-merge_absent k extra next u.1 (ground arith)
    ∙ ground (
      arith,
      lookup-insert j k v (export_conflict j v labels),
      lookup-export j v k labels u.0,
      text_eq_iff j k,
    )

lookup-merge :
    (k : Text) (extra labels : Map Text Text)
    → IsDistinct extra
    → Unexported k extra
    → lookup k (merge_extra extra labels) ≡ overridden (lookup k extra) (lookup k labels)
unfolding merge_extra lookup
lookup-merge k [] labels d u = refl
lookup-merge k ((j, v) ∷ extra) labels d u =
    let next = if is_empty v then labels else insert j v (export_conflict j v labels) in
    elim (Bool-cases (text_eq j k)) [
      | inl hit ↦
          let absent : lookup k extra ≡ none =
            subst (λ x. lookup x extra ≡ none) ((text_eq_iff j k).0 hit) d.0 in
          rw hit (
            lookup-merge_absent k extra next u.1 absent
            ∙ ground (arith, hit, lookup-insert j k v (export_conflict j v labels)))
      | inr miss ↦ rw miss (
          lookup-merge k extra next d.1 u.1
          ∙ ap (overridden (lookup k extra)) (
              ground (
                arith,
                miss,
                lookup-insert j k v (export_conflict j v labels),
                lookup-export j v k labels u.0,
              )))
    ]

-- The dimensions of a row as a map.
abbrev pub dimensions_of : List Label → Map Text Text
dimensions_of ls = set_labels ls []

-- Under a name that no label of the rule moves a dimension to, and that is not "alertname" (unless
-- the rule has no name), an instance has the rule's label, if that is not empty, and otherwise the
-- row's dimension; under "alertname" it has the rule's name, if the rule has one.
pub build_labels_lem :
    (name : Text) (extra : Map Text Text) (ls : List Label) (k : Text)
    → IsDistinct extra
    → Unexported k extra
    → ((is_empty name ≡ true) ⊎ (codes "alertname" ≢ k)
        → lookup k (build_labels name extra ls)
          ≡ overridden (lookup k extra) (lookup k (dimensions_of ls)))
      × (is_empty name ≡ false
          → lookup (codes "alertname") (build_labels name extra ls) ≡ some name)
unfolding build_labels
build_labels_lem name extra ls k d u =
    let labels = merge_extra extra (dimensions_of ls) in
    let merged = lookup-merge k extra (dimensions_of ls) d u in
    (
      λ other. ground (
        arith,
        merged,
        lookup-insert (codes "alertname") k name labels,
        text_eq_iff (codes "alertname") k,
      ),
      λ named. ground (
        arith,
        lookup-insert (codes "alertname") (codes "alertname") name labels,
        text_eq_iff (codes "alertname") (codes "alertname"),
      ),
    )
