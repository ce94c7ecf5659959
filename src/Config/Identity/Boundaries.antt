-- ===== src/Config/Identity/Boundaries.antt =====
-- Where the identities of config.go run together: a label's key and value are hashed with no
-- separator between them.
use chalert.Prelude.{ℕ, ◌≡◌, [], ◌∷◌, ◌++◌, Text}
use chalert.Hash.{write, write-append}
use chalert.Sort.{sort_by}
use chalert.Config.{Rule}
use chalert.Config.Identity.{hash_rule, hash_rule_with_expr_hash, write_entries}

write_entries_shift :
    (h : ℕ) (k x v : Text) → write_entries h ((k ++ x, v) ∷ []) ≡ write_entries h ((k, x ++ v) ∷ [])
unfolding write_entries
write_entries_shift h k x v = rw (write-append h k x, write-append (write h k) x v)

-- A rule labelled kx = v and the same rule labelled k = xv have one identity, at parse time and
-- after normalization, whatever the three texts are.
pub hash_rule_collision :
    (r : Rule) (expr_hash : ℕ) (k x v : Text)
    → (hash_rule (record r { labels = (k ++ x, v) ∷ [] })
        ≡ hash_rule (record r { labels = (k, x ++ v) ∷ [] }))
      × (hash_rule_with_expr_hash expr_hash (record r { labels = (k ++ x, v) ∷ [] })
          ≡ hash_rule_with_expr_hash expr_hash (record r { labels = (k, x ++ v) ∷ [] }))
unfolding hash_rule hash_rule_with_expr_hash sort_by
hash_rule_collision r expr_hash k x v = (write_entries_shift _ k x v, write_entries_shift _ k x v)
