-- ===== src/Rule/Labels/LabelSet.antt =====
-- The identity of rule/rule.go as a function of label sets: maps up to the order in which Go ranges
-- over them.
use mathlib.Core.List.{
  Mem, Nodup, Nodup-nil, Nodup-cons, mem-cons_self, mem-cons_of_mem, not-mem-nil,
  eq-or-mem_of_mem-cons, perm_ext_iff_of_Nodup,
}
use mathlib.Core.Logic.Or
use mathlib.Core.Quot
use mathlib.Core.Quot.{Quot, Quot-set}
use native.Mathlib.Nat.{ℕ_set}
use chalert.Prelude.{
  ℕ, ◌≡◌, ◌≢◌, ◌↔◌, refl, ap, sym, ◌∙◌, inl, inr, Bool-cases, List, [], ◌∷◌, ◌++◌, map, Bool, true,
  false, if◌then◌else◌, Perm, none, Text, Map, lookup, IsDistinct, text_Eq, text_eq, text_eq_iff,
  arith, subst, Option, insert, insert-IsDistinct, Option-cases, is_empty, codes,
}
use chalert.Datasource.{Label}
use chalert.Rule.Labels.{hash_labels, build_labels, set_labels, merge_extra, export_conflict}
use chalert.Rule.Labels.Hashed.{hash_labels_order}

abbrev keys : Map Text Text → List Text
keys m = map (λ p. p.0) m

lookup_of_Mem : (k : Text) (m : Map Text Text) → Mem k (keys m) → lookup k m ≢ none
unfolding lookup
lookup_of_Mem k [] h = absurd (not-mem-nil h)
lookup_of_Mem k ((j, v) ∷ m) h =
    Or.elim (hlevel) (eq-or-mem_of_mem-cons h) (λ e q. ground (arith, e, q, text_eq_iff j k))
      (λ later q. lookup_of_Mem k m later (ground (arith, q)))

Mem_of_lookup : (k : Text) (m : Map Text Text) → lookup k m ≢ none → Mem k (keys m)
unfolding lookup
Mem_of_lookup k [] h = absurd (h refl)
Mem_of_lookup k ((j, v) ∷ m) h = elim (Bool-cases (text_eq j k)) [
  | inl e ↦ subst (λ x. Mem x (j ∷ keys m)) ((text_eq_iff j k).0 e) mem-cons_self
  | inr e ↦ mem-cons_of_mem j (Mem_of_lookup k m (λ q. h (ground (arith, e, q))))
]

keys-Nodup : (m : Map Text Text) → IsDistinct m → Nodup (keys m)
keys-Nodup [] h = Nodup-nil
keys-Nodup ((j, v) ∷ m) h = Nodup-cons.1 (λ e. lookup_of_Mem j m e h.0, keys-Nodup m h.1)

keys-Perm :
    (m n : Map Text Text)
    → IsDistinct m
    → IsDistinct n
    → ((k : Text) → lookup k m ≡ lookup k n)
    → Perm (keys m) (keys n)
keys-Perm m n d d' same = (perm_ext_iff_of_Nodup (keys-Nodup m d) (keys-Nodup n d')).1 (λ k. (
  λ h. Mem_of_lookup k n (λ q. lookup_of_Mem k m h (same k ∙ q)),
  λ h. Mem_of_lookup k m (λ q. lookup_of_Mem k n h (sym (same k) ∙ q)),
))

-- A map as Go has it, with one value under each key.
abbrev pub LabelMap : Type 0
LabelMap = (m : Map Text Text) × IsDistinct m

abbrev pub HasSameLabels : LabelMap → LabelMap → Type 0
HasSameLabels x y = (k : Text) → lookup k x.0 ≡ lookup k y.0

abbrev pub LabelSet : Type 0
LabelSet = Quot HasSameLabels

hash_labels_same : (x y : LabelMap) → HasSameLabels x y → hash_labels x.0 ≡ hash_labels y.0
hash_labels_same x y same = hash_labels_order x.0 y.0 (keys-Perm x.0 y.0 x.1 y.1 same) same

abbrev pub of_map : LabelMap → LabelSet
of_map = Quot.mk

-- The identity of a label set, and its value under a name.
pub label_set_id : LabelSet → ℕ
label_set_id = Quot.lift ℕ_set (λ x. hash_labels x.0) hash_labels_same

value_under : Text → LabelSet → Option Text
value_under k = Quot.lift (hlevel) (λ x. lookup k x.0) (λ x y same. same k)

-- Two label sets are equal exactly if they have the same value under each name.
of_map_iff : (x y : LabelMap) → (of_map x ≡ of_map y) ↔ HasSameLabels x y
unfolding value_under
of_map_iff x y = (λ e k. ap (value_under k) e, λ same. Quot.sound same)

either-IsDistinct :
    (b : Bool) (m n : Map Text Text) → IsDistinct m → IsDistinct n → IsDistinct (if b then m else n)
either-IsDistinct true m n d d' = d
either-IsDistinct false m n d d' = d'

set_labels-IsDistinct :
    (ls : List Label) (m : Map Text Text) → IsDistinct m → IsDistinct (set_labels ls m)
unfolding set_labels
set_labels-IsDistinct [] m d = d
set_labels-IsDistinct (l ∷ ls) m d =
    set_labels-IsDistinct ls (insert l.name l.value m) (insert-IsDistinct l.name l.value m d)

export_conflict-IsDistinct :
    (j v : Text) (m : Map Text Text) → IsDistinct m → IsDistinct (export_conflict j v m)
unfolding export_conflict
export_conflict-IsDistinct j v m d = elim (Option-cases (lookup j m)) [
  | inl e ↦ rw (e, export_conflict) d
  | inr (orig, e) ↦
      let moved = insert-IsDistinct (codes "exported_" ++ j) orig m d in
      rw (e, export_conflict) (either-IsDistinct (text_eq orig v) m _ d moved)
]

merge_extra-IsDistinct : (extra m : Map Text Text) → IsDistinct m → IsDistinct (merge_extra extra m)
unfolding merge_extra
merge_extra-IsDistinct [] m d = d
merge_extra-IsDistinct ((j, v) ∷ extra) m d =
    let moved =
      insert-IsDistinct j v (export_conflict j v m) (export_conflict-IsDistinct j v m d) in
    merge_extra-IsDistinct extra _ (either-IsDistinct (is_empty v) m _ d moved)

pub build_labels-IsDistinct :
    (name : Text) (extra : Map Text Text) (ls : List Label)
    → IsDistinct (build_labels name extra ls)
unfolding build_labels
build_labels-IsDistinct name extra ls =
    let labels = merge_extra extra (set_labels ls []) in
    let d = merge_extra-IsDistinct extra (set_labels ls []) (set_labels-IsDistinct ls [] tt) in
    either-IsDistinct (is_empty name) labels _ d
      (insert-IsDistinct (codes "alertname") name labels d)

-- The label set of the instance that a row stands for.
abbrev pub instance_labels : Text → Map Text Text → List Label → LabelSet
instance_labels name extra ls =
    of_map (build_labels name extra ls, build_labels-IsDistinct name extra ls)

-- Two rows of a rule stand for one label set exactly if their labels have the same value under each
-- name, and the identity that `Exec` gives a row is a function of its label set: it does not depend
-- on the order of the map's entries.
pub instance_labels_iff :
    (name : Text) (extra : Map Text Text) (ls ls' : List Label)
    → ((instance_labels name extra ls ≡ instance_labels name extra ls') ↔ (
        (k : Text)
        → lookup k (build_labels name extra ls) ≡ lookup k (build_labels name extra ls')))
      × (hash_labels (build_labels name extra ls) ≡ label_set_id (instance_labels name extra ls))
unfolding label_set_id
instance_labels_iff name extra ls ls' = (
  of_map_iff (build_labels name extra ls, build_labels-IsDistinct name extra ls)
      (build_labels name extra ls', build_labels-IsDistinct name extra ls'),
  refl,
)
