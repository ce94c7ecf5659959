-- ===== src/Config/Parsing/Order.antt =====
-- The fingerprint of a snapshot (config/config.go) does not depend on the order of its map.
use chalert.Prelude.{ℕ, ◌≡◌, refl, List, [], ◌∷◌, map, Perm, Text, Map, lookup, text_Eq}
use chalert.Hash.{offset_basis}
use chalert.Sort.{sort_strings}
use chalert.Sort.Order.{sort_perm}
use chalert.Config.Parsing.{fingerprint, write_files}

write_files-lookup :
    (m n : Map Text Text) (paths : List Text) (h : ℕ)
    → ((k : Text) → lookup k m ≡ lookup k n)
    → write_files m paths h ≡ write_files n paths h
unfolding write_files
write_files-lookup m n [] h same = refl
write_files-lookup m n (k ∷ paths) h same = rw (same k) (write_files-lookup m n paths _ same)

-- Two snapshots with the same paths, in whatever order, and the same content under each path have one
-- fingerprint.
pub fingerprint_order :
    (m n : Map Text Text)
    → Perm (map (λ p. p.0) m) (map (λ p. p.0) n)
    → ((k : Text) → lookup k m ≡ lookup k n)
    → fingerprint m ≡ fingerprint n
unfolding fingerprint
fingerprint_order m n p same =
    rw (sort_perm (map (λ p. p.0) m) (map (λ p. p.0) n) p)
      (write_files-lookup m n (sort_strings (map (λ p. p.0) n)) offset_basis same)
