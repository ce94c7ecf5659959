-- ===== src/Prelude/Assoc.antt =====
-- Go maps as association lists. The order of the entries stands for the order in which `range`
-- meets them, which Go leaves open: what is stated through `lookup` holds in every order.
use mathlib.Core.Path.{◌≡◌, refl, subst}
use mathlib.Core.Logic.{inl, inr}
use mathlib.Core.Bool.{true}
use mathlib.Core.Option.{Option, none, some}
use mathlib.Core.List.{List, [], ◌∷◌}
use native.Mathlib.Omega.{arith}
use chalert.Prelude.Tests.{if◌then◌else◌, Bool-cases}
use chalert.Prelude.Equality.{Eq}
use chalert.Prelude.Lists.{All}

abbrev pub Map {ℓ} : Type 0 → Type ℓ → Type ℓ
Map K V = List (K × V)

abbrev pub then_map {ℓ κ} : {V : Type ℓ} {W : Type κ} → Option V → (V → Option W) → Option W
then_map none f = none
then_map (some v) f = f v

pub beq_refl : {K : Type 0} ⦃e : Eq K⦄ (k : K) → e.beq k k ≡ true
beq_refl ⦃e⦄ k = (e.beq_iff k k).1 refl

module _ {ℓ} {K : Type 0} {V : Type ℓ} ⦃e : Eq K⦄ where
  unfoldable pub lookup : K → Map K V → Option V
  lookup k [] = none
  lookup k ((j, v) ∷ m) = if e.beq j k then some v else lookup k m

  unfoldable pub insert : K → V → Map K V → Map K V
  insert k v [] = (k, v) ∷ []
  insert k v ((j, w) ∷ m) = if e.beq j k then (k, v) ∷ m else (j, w) ∷ insert k v m

  unfoldable pub delete : K → Map K V → Map K V
  delete k [] = []
  delete k ((j, w) ∷ m) = let rest = delete k m in if e.beq j k then rest else (j, w) ∷ rest

  -- No key stands twice.
  abbrev pub IsDistinct : Map K V → Type ℓ
  IsDistinct [] = Unit
  IsDistinct ((k, v) ∷ m) = (lookup k m ≡ none) × IsDistinct m

  -- A loop `for k, v := range m` that updates or deletes the entry that it is at.
  unfoldable pub sweep : (K → V → Option V) → Map K V → Map K V
  sweep f [] = []
  sweep f ((k, v) ∷ m) = elim (f k v) [ none ↦ sweep f m | some w ↦ (k, w) ∷ sweep f m ]

  pub lookup-insert :
      (k j : K) (v : V) (m : Map K V)
      → lookup j (insert k v m) ≡ (if e.beq k j then some v else lookup j m)
  unfolding lookup insert
  lookup-insert k j v [] = refl
  lookup-insert k j v ((i, w) ∷ m) =
      ground (arith, e.beq_iff k j, e.beq_iff i k, e.beq_iff i j, lookup-insert k j v m)

  pub lookup-delete :
      (k j : K) (m : Map K V) → lookup j (delete k m) ≡ (if e.beq k j then none else lookup j m)
  unfolding lookup delete
  lookup-delete k j [] = ground arith
  lookup-delete k j ((i, w) ∷ m) =
      ground (arith, e.beq_iff k j, e.beq_iff i k, e.beq_iff i j, lookup-delete k j m)

  pub insert-IsDistinct : (k : K) (v : V) (m : Map K V) → IsDistinct m → IsDistinct (insert k v m)
  unfolding insert lookup
  insert-IsDistinct k v [] h = (refl, tt)
  insert-IsDistinct k v ((j, w) ∷ m) h =
      ground
        (arith, e.beq_iff j k, e.beq_iff k j, lookup-insert k j v m, insert-IsDistinct k v m h.1)

  -- An absent key stays absent.
  pub sweep_absent :
      (f : K → V → Option V) (k : K) (m : Map K V) → lookup k m ≡ none → lookup k (sweep f m) ≡ none
  unfolding lookup sweep
  sweep_absent f k [] h = refl
  sweep_absent f k ((j, v) ∷ m) h = ground (arith, sweep_absent f k m)

  pub sweep-IsDistinct :
      (f : K → V → Option V) (m : Map K V) → IsDistinct m → IsDistinct (sweep f m)
  unfolding sweep
  sweep-IsDistinct f [] h = tt
  sweep-IsDistinct f ((k, v) ∷ m) h =
      ground (arith, sweep-IsDistinct f m h.1, sweep_absent f k m h.0)

  -- The loop treats every key once, by what it held before the loop.
  pub lookup-sweep :
      (f : K → V → Option V) (k : K) (m : Map K V)
      → IsDistinct m
      → lookup k (sweep f m) ≡ then_map (lookup k m) (f k)
  unfolding lookup sweep
  lookup-sweep f k [] h = refl
  lookup-sweep f k ((j, v) ∷ m) h = elim (Bool-cases (e.beq j k)) [
    | inl hit ↦ ground (arith, (e.beq_iff j k).0 hit, sweep_absent f k m)
    | inr miss ↦ ground (arith, lookup-sweep f k m h.1)
  ]

  module _ {κ} (P : K × V → Type κ) where
    pub insert-All : (k : K) (v : V) (m : Map K V) → P (k, v) → All P m → All P (insert k v m)
    unfolding insert
    insert-All k v [] p h = (p, tt)
    insert-All k v ((j, w) ∷ m) p h = elim (Bool-cases (e.beq j k)) [
      | inl hit ↦ rw hit (p, h.1)
      | inr miss ↦ rw miss (h.0, insert-All k v m p h.1)
    ]

    pub delete-All : (k : K) (m : Map K V) → All P m → All P (delete k m)
    unfolding delete
    delete-All k [] h = tt
    delete-All k ((j, w) ∷ m) h = elim (Bool-cases (e.beq j k)) [
      | inl hit ↦ rw hit (delete-All k m h.1)
      | inr miss ↦ rw miss (h.0, delete-All k m h.1)
    ]

    -- What a lookup finds satisfies what all entries do.
    pub lookup-All : (k : K) (v : V) (m : Map K V) → lookup k m ≡ some v → All P m → P (k, v)
    unfolding lookup
    lookup-All k v [] h a = absurd (ground (arith, h))
    lookup-All k v ((j, w) ∷ m) h a = elim (Bool-cases (e.beq j k)) [
      | inl hit ↦ subst P (ground (arith, h, hit, (e.beq_iff j k).0 hit)) a.0
      | inr miss ↦ lookup-All k v m (ground (arith, h, miss)) a.1
    ]
