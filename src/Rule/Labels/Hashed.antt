-- ===== src/Rule/Labels/Hashed.antt =====
-- The identity of a label set in rule/rule.go: it does not depend on the order of the map, and two
-- label sets may share it.
use chalert.Prelude.{
  ℕ, ◌≡◌, refl, List, [], ◌∷◌, ◌++◌, map, Perm, Text, Map, lookup, text_Eq, beq_refl,
}
use chalert.Hash.{write, write-append, offset_basis}
use chalert.Sort.{sort_by, sort_strings}
use chalert.Sort.Order.{sort_perm}
use chalert.Rule.Labels.{hash_labels, write_labels}

write_labels-lookup :
    (m n : Map Text Text) (keys : List Text) (h : ℕ)
    → ((k : Text) → lookup k m ≡ lookup k n)
    → write_labels m keys h ≡ write_labels n keys h
unfolding write_labels
write_labels-lookup m n [] h same = refl
write_labels-lookup m n (k ∷ keys) h same = rw (same k) (write_labels-lookup m n keys _ same)

-- Two maps with the same keys, in whatever order, and the same value under each have one identity.
pub hash_labels_order :
    (m n : Map Text Text)
    → Perm (map (λ p. p.0) m) (map (λ p. p.0) n)
    → ((k : Text) → lookup k m ≡ lookup k n)
    → hash_labels m ≡ hash_labels n
unfolding hash_labels
hash_labels_order m n p same =
    rw (sort_perm (map (λ p. p.0) m) (map (λ p. p.0) n) p)
      (write_labels-lookup m n (sort_strings (map (λ p. p.0) n)) offset_basis same)

-- The label set kx = v and the label set k = xv have one identity, whatever the three texts are:
-- nothing is hashed between a label's name and its value.
pub hash_labels_collision :
    (k x v : Text) → hash_labels ((k ++ x, v) ∷ []) ≡ hash_labels ((k, x ++ v) ∷ [])
unfolding hash_labels write_labels sort_by lookup
hash_labels_collision k x v =
    rw (beq_refl (k ++ x), beq_refl k)
      (rw (write-append offset_basis k x, write-append (write offset_basis k) x v))
