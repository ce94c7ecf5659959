-- ===== src/Rule/Labels.antt =====
-- rule/rule.go: the labels of an alert instance, its identity, and its annotations. Parsing and
-- executing a template (`text/template`) is a parameter: it gives the text, or fails.
pub mod Hashed
pub mod LabelSet
pub mod Merged
pub mod Ordered
use chalert.Prelude.{
  ℕ, zero, suc, ◌-◌, Bool, true, false, ◌&&◌, ◌==◌, List, [], ◌∷◌, ◌++◌, map, Option, none, some,
  Text, text_eq, is_empty, Map, lookup, insert, text_Eq, codes, length, if◌then◌else◌,
}
use chalert.Hash.{write, offset_basis}
use chalert.Sort.{sort_strings}
use chalert.Datasource.{Label, Metric}

pub set_labels : List Label → Map Text Text → Map Text Text
set_labels [] labels = labels
set_labels (l ∷ ls) labels = set_labels ls (insert l.name l.value labels)

-- A dimension that an extra label overrides with another value moves to "exported_".
export_conflict : Text → Text → Map Text Text → Map Text Text
export_conflict k v labels = elim (lookup k labels) [
  | none ↦ labels
  | some orig ↦ if text_eq orig v then labels else insert (codes "exported_" ++ k) orig labels
]

merge_extra : Map Text Text → Map Text Text → Map Text Text
unfolding export_conflict
merge_extra [] labels = labels
merge_extra ((k, v) ∷ extra) labels =
    merge_extra extra (if is_empty v then labels else insert k v (export_conflict k v labels))

-- `buildLabels`, from the rule's name, its extra labels and the row's dimensions.
unfoldable pub build_labels : Text → Map Text Text → List Label → Map Text Text
unfolding set_labels merge_extra
build_labels name extra dimensions =
    let labels = merge_extra extra (set_labels dimensions []) in
    if is_empty name then labels else insert (codes "alertname") name labels

abbrev value_or_empty : Option Text → Text
value_or_empty none = []
value_or_empty (some v) = v

write_labels : Map Text Text → List Text → ℕ → ℕ
write_labels labels [] h = h
write_labels labels (k ∷ keys) h =
    write_labels labels keys
      (write (write (write h k) (value_or_empty (lookup k labels))) (0xff ∷ []))

-- `hashLabels`.
unfoldable pub hash_labels : Map Text Text → ℕ
unfolding write_labels
hash_labels labels = write_labels labels (sort_strings (map (λ p. p.0) labels)) offset_basis

begins_with : Text → Text → Bool
begins_with [] s = true
begins_with (d ∷ p) [] = false
begins_with (d ∷ p) (c ∷ s) = c == d && begins_with p s

-- `strings.ReplaceAll`; `skip` bytes of a match are still to be passed over.
replace_all : Text → Text → ℕ → Text → Text
unfolding begins_with
replace_all old new skip [] = []
replace_all old new (suc skip) (c ∷ s) = replace_all old new skip s
replace_all old new zero (c ∷ s) =
    let hit = new ++ replace_all old new (length old - 1) s in
    let miss = c ∷ replace_all old new zero s in if begins_with old (c ∷ s) then hit else miss

pub normalize_legacy_template : Text → Text
unfolding replace_all
normalize_legacy_template s =
    replace_all (codes "$value") (codes ".Value") 0
      (replace_all (codes "$labels.") (codes ".Labels.") 0 s)

pub record AnnotationData (F : Type 0) : Type 0 where
  pub labels : Map Text Text
  pub value : F
  pub expr : Text

-- Name, template text and data to the rendered text; `none` is an error of either stage.
abbrev pub Templates : Type 0 → Type 0
Templates F = Text → Text → AnnotationData F → Option Text

module _ {F : Type 0} where
  abbrev first_or : F → List F → F
  first_or d [] = d
  first_or d (v ∷ vs) = v

  render_one : Templates F → AnnotationData F → Text → Text → Text
  unfolding normalize_legacy_template
  render_one execute d k tpl = elim (execute k (normalize_legacy_template tpl) d) [
    | none ↦ tpl
    | some text ↦ text
  ]

  render_all : Templates F → AnnotationData F → Map Text Text → Map Text Text
  unfolding render_one
  render_all execute d [] = []
  render_all execute d ((k, tpl) ∷ rest) =
      (k, render_one execute d k tpl) ∷ render_all execute d rest

  -- `renderAnnotations`; the zero of `float64` stands in for a missing value.
  unfoldable pub render_annotations :
      F → Templates F → Text → Map Text Text → Metric F → Map Text Text
  unfolding set_labels render_all
  render_annotations float_zero execute expr ann_tpls m =
      let d : AnnotationData F = record {
        labels = set_labels m.labels [];
        value = first_or float_zero m.values;
        expr = expr;
      } in
      render_all execute d ann_tpls
