-- ===== src/Prelude/Lists.antt =====
-- Lists measured by native numbers, under the library's names, and predicates on all entries.
use Prim.Native.Nat.{ℕ, zero, suc, ◌+◌}
use mathlib.Core.Path.{◌≡◌, subst}
use mathlib.Core.List.Permᴰ
use mathlib.Core.List.{List, [], ◌∷◌, ◌++◌, append_assoc, Permᴰ}
use mathlib.Core.Logic.{◌⊎◌, inl, inr}
use mathlib.Core.Option.{Option, none, some}
use native.Mathlib.Omega.{arith}

module _ {ℓ} {A : Type ℓ} where
  abbrev pub length : List A → ℕ
  length [] = 0
  length (x ∷ xs) = suc (length xs)

  abbrev pub take : ℕ → List A → List A
  take zero xs = []
  take (suc n) [] = []
  take (suc n) (x ∷ xs) = x ∷ take n xs

  abbrev pub drop : ℕ → List A → List A
  drop zero xs = xs
  drop (suc n) [] = []
  drop (suc n) (x ∷ xs) = drop n xs

  abbrev pub get_elem? : List A → ℕ → Option A
  get_elem? [] i = none
  get_elem? (x ∷ xs) zero = some x
  get_elem? (x ∷ xs) (suc i) = get_elem? xs i

  abbrev pub All {κ} : (A → Type κ) → List A → Type κ
  All P [] = Unit
  All P (x ∷ xs) = P x × All P xs

  pub length-append : (xs ys : List A) → length (xs ++ ys) ≡ length xs + length ys
  length-append [] ys = omega arith
  length-append (x ∷ xs) ys = omega (arith, length-append xs ys)

  pub All-append {κ} : (P : A → Type κ) (xs ys : List A) → All P xs → All P ys → All P (xs ++ ys)
  All-append P [] ys hx hy = hy
  All-append P (x ∷ xs) ys hx hy = (hx.0, All-append P xs ys hx.1 hy)

  pub All-split {κ} : (P : A → Type κ) (xs ys : List A) → All P (xs ++ ys) → All P xs × All P ys
  All-split P [] ys h = (tt, h)
  All-split P (x ∷ xs) ys h = let rest = All-split P xs ys h.1 in ((h.0, rest.0), rest.1)

  pub All-mono {κ} :
      (P Q : A → Type κ) → ((a : A) → P a → Q a) → (xs : List A) → All P xs → All Q xs
  All-mono P Q f [] h = tt
  All-mono P Q f (x ∷ xs) h = (f x h.0, All-mono P Q f xs h.1)

  -- Two lists in front of a third one can change places.
  pub append_exchange : (l m n : List A) → Permᴰ (l ++ (m ++ n)) (m ++ (l ++ n))
  append_exchange l m n =
      subst (λ x. Permᴰ x (m ++ (l ++ n))) (append_assoc l m n)
        (subst (λ x. Permᴰ ((l ++ m) ++ n) x) (append_assoc m l n)
          (Permᴰ.append_right n (Permᴰ.append_comm l m)))

module _ {A : Type 0} where
  -- A value stands in a list.
  abbrev pub In : A → List A → Type 0
  In b [] = ⊥
  In b (x ∷ xs) = (b ≡ x) ⊎ In b xs

  pub In-append : (b : A) (xs ys : List A) → In b xs ⊎ In b ys → In b (xs ++ ys)
  In-append b [] ys (inl h) = absurd h
  In-append b [] ys (inr h) = h
  In-append b (x ∷ xs) ys (inl (inl e)) = inl e
  In-append b (x ∷ xs) ys (inl (inr h)) = inr (In-append b xs ys (inl h))
  In-append b (x ∷ xs) ys (inr h) = inr (In-append b xs ys (inr h))
