-- ===== src/Config/Identity/Reformatting.antt =====
-- `HashRule` of config.go does not see how an expression is laid out.
use chalert.Prelude.{ℕ, ◌≡◌, true, [], ◌∷◌, ◌++◌, Text, arith}
use chalert.Config.{Rule}
use chalert.Config.Identity.{is_space, fields, normalize_expr, hash_rule}

fields-space :
    (a b : Text) (c d : ℕ)
    → is_space c ≡ true
    → is_space d ≡ true
    → (fields (a ++ c ∷ b) ≡ fields (a ++ d ∷ b))
unfolding fields
fields-space [] b c d p q = rw (p, q)
fields-space (x ∷ []) b c d p q = rw (p, q)
fields-space (x ∷ y ∷ a) b c d p q = ground (arith, fields-space (y ∷ a) b c d p q)

fields-spaces :
    (a b : Text) (c d : ℕ)
    → is_space c ≡ true
    → is_space d ≡ true
    → (fields (a ++ c ∷ d ∷ b) ≡ fields (a ++ c ∷ b))
unfolding fields
fields-spaces [] b c d p q = rw (p, q)
fields-spaces (x ∷ []) b c d p q = rw (p, q)
fields-spaces (x ∷ y ∷ a) b c d p q = ground (arith, fields-spaces (y ∷ a) b c d p q)

module _ (r : Rule) (a b : Text) (c d : ℕ) (p : is_space c ≡ true) (q : is_space d ≡ true) where
  -- At any place of the expression, one white space character in place of another, or two in place
  -- of one, leave the parse-time identity of the rule as it was.
  pub hash_rule-reformatted :
      (hash_rule (record r { expr = a ++ c ∷ b }) ≡ hash_rule (record r { expr = a ++ d ∷ b }))
      × (hash_rule (record r { expr = a ++ c ∷ d ∷ b })
          ≡ hash_rule (record r { expr = a ++ c ∷ b }))
  unfolding hash_rule normalize_expr
  hash_rule-reformatted = (rw (fields-space a b c d p q), rw (fields-spaces a b c d p q))
