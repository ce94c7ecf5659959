-- ===== src/Sort/Order.antt =====
-- Sorting forgets the order in which a map was ranged over.
use mathlib.Core.List.{Permᴰ}
use mathlib.Core.Logic.{∥∥₁_elim}
use native.Mathlib.Decide.{ℕ_discrete}
use mathlib.Core.HLevel.{hedberg}
use chalert.Prelude.{◌≡◌, refl, ◌∙◌, true, false, List, [], ◌∷◌, Perm, Text, text_lt, arith}
use chalert.Sort.{insert_by, sort_by, sort_strings}

pub text_lt_trans : (r s t : Text) → text_lt r s ≡ true → text_lt s t ≡ true → text_lt r t ≡ true
unfolding text_lt
text_lt_trans r s [] p q = cc
text_lt_trans [] s (d ∷ t) p q = refl
text_lt_trans (b ∷ r) [] (d ∷ t) p q = cc
text_lt_trans (b ∷ r) (c ∷ s) (d ∷ t) p q = ground (arith, text_lt_trans r s t)

pub text_lt_asym : (s t : Text) → text_lt s t ≡ true → text_lt t s ≡ false
unfolding text_lt
text_lt_asym s [] p = cc
text_lt_asym [] (d ∷ t) p = refl
text_lt_asym (c ∷ s) (d ∷ t) p = ground (arith, text_lt_asym s t)

pub text_lt_total : (s t : Text) → text_lt s t ≡ false → text_lt t s ≡ false → s ≡ t
unfolding text_lt
text_lt_total [] [] p q = refl
text_lt_total [] (d ∷ t) p q = cc
text_lt_total (c ∷ s) [] p q = cc
text_lt_total (c ∷ s) (d ∷ t) p q = ground (arith, text_lt_total s t)

insert_comm :
    (x y : Text) (l : List Text)
    → insert_by (λ s. s) x (insert_by (λ s. s) y l) ≡ insert_by (λ s. s) y (insert_by (λ s. s) x l)
unfolding insert_by
insert_comm x y [] = ground (arith, text_lt_asym x y, text_lt_asym y x, text_lt_total x y)
insert_comm x y (z ∷ l) = ground (
  arith,
  text_lt_asym x y,
  text_lt_asym y x,
  text_lt_total x y,
  text_lt_trans z x y,
  text_lt_trans z y x,
  text_lt_trans x z y,
  text_lt_trans y z x,
  text_lt_asym z x,
  text_lt_asym z y,
  insert_comm x y l,
)

sort_permᴰ : {xs ys : List Text} → Permᴰ xs ys → sort_strings xs ≡ sort_strings ys
unfolding sort_by
sort_permᴰ Permᴰ.nil = refl
sort_permᴰ (Permᴰ.cons e p) = cc (sort_permᴰ p)
sort_permᴰ (Permᴰ.swap {a} {b} {a'} {b'} {l} p q) = insert_comm a b (sort_strings l) ∙ cc (p, q)
sort_permᴰ (Permᴰ.trans p q) = sort_permᴰ p ∙ sort_permᴰ q

texts-discrete : Discrete (List Text)
texts-discrete = hlevel ℕ_discrete

-- Two lists with the same strings, in whatever order, sort to the same list.
pub sort_perm : (xs ys : List Text) → Perm xs ys → sort_strings xs ≡ sort_strings ys
sort_perm xs ys p =
    ∥∥₁_elim p (hedberg texts-discrete (sort_strings xs) (sort_strings ys)) sort_permᴰ
