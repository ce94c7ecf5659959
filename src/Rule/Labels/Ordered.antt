-- ===== src/Rule/Labels/Ordered.antt =====
-- `buildLabels` of rule/rule.go depends on the order in which Go ranges over the rule's labels.
use chalert.Prelude.{
  ◌≡◌, ◌≢◌, refl, sym, ap, ◌∙◌, false, List, [], ◌∷◌, ◌++◌, some, Text, codes, is_empty, Map,
  lookup, insert, lookup-insert, text_Eq, text_eq, text_eq_iff, length, length-append, arith,
  beq_refl, if◌then◌else◌,
}
use chalert.Datasource.{Label}
use chalert.Rule.Labels.{build_labels, set_labels, merge_extra, export_conflict}

exported-ne : (a : Text) → codes "exported_" ++ a ≢ a
exported-ne a e = omega (arith, ap length e, length-append (codes "exported_") a)

is_empty_ne : (v : Text) → v ≢ [] → is_empty v ≡ false
is_empty_ne [] h = absurd (h refl)
is_empty_ne (c ∷ v) h = refl

not-text_eq : (s t : Text) → s ≢ t → text_eq s t ≡ false
not-text_eq s t h = ground (arith, text_eq_iff s t)

-- The two orders, after the dimensions, for a name `e` other than `a`.
merge_last :
    (a v e w : Text) (labels : Map Text Text)
    → w ≢ []
    → lookup e (merge_extra ((a, v) ∷ (e, w) ∷ []) labels) ≡ some w
unfolding merge_extra
merge_last a v e w labels w0 =
    let before = if is_empty v then labels else insert a v (export_conflict a v labels) in
    rw (is_empty_ne w w0) (rw (lookup-insert e e w (export_conflict e w before)) (rw (beq_refl e)))

merge_first :
    (a d v w : Text)
    → d ≢ v
    → v ≢ []
    → w ≢ []
    → let e = codes "exported_" ++ a in
      lookup e (merge_extra ((e, w) ∷ (a, v) ∷ []) (insert a d [])) ≡ some d
unfolding merge_extra export_conflict lookup insert
merge_first a d v w dv v0 w0 =
    let e = codes "exported_" ++ a in
    let ne = not-text_eq e a (exported-ne a) in
    let ne' = not-text_eq a e (λ p. exported-ne a (sym p)) in
    rw (is_empty_ne w w0, is_empty_ne v v0)
      (ground (arith, ne, ne', not-text_eq d v dv, beq_refl a, beq_refl e))

not_alertname : (a : Text) → text_eq (codes "alertname") (codes "exported_" ++ a) ≡ false
unfolding text_eq
not_alertname a = refl

under_name :
    (name e : Text) (labels : Map Text Text)
    → text_eq (codes "alertname") e ≡ false
    → lookup e (if is_empty name then labels else insert (codes "alertname") name labels)
      ≡ lookup e labels
under_name name e labels h = ground (arith, lookup-insert (codes "alertname") e name labels)

-- A row with dimension `a`, and a rule whose labels override `a` and set "exported_a" too: ranged
-- over in one order the instance has the rule's "exported_a", in the other the row's old value.
pub build_labels_order :
    (name a d v w : Text)
    → d ≢ v
    → v ≢ []
    → w ≢ []
    → let row : List Label = record { name = a; value = d } ∷ [] in
      let e = codes "exported_" ++ a in
      (lookup e (build_labels name ((a, v) ∷ (e, w) ∷ []) row) ≡ some w)
      × (lookup e (build_labels name ((e, w) ∷ (a, v) ∷ []) row) ≡ some d)
unfolding build_labels set_labels
build_labels_order name a d v w dv v0 w0 =
    let e = codes "exported_" ++ a in
    (
      under_name name e (merge_extra ((a, v) ∷ (e, w) ∷ []) (insert a d [])) (not_alertname a)
          ∙ merge_last a v e w (insert a d []) w0,
      under_name name e (merge_extra ((e, w) ∷ (a, v) ∷ []) (insert a d [])) (not_alertname a)
          ∙ merge_first a d v w dv v0 w0,
    )
