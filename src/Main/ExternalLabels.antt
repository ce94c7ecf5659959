-- ===== src/Main/ExternalLabels.antt =====
-- Which flags parseExternalLabels of cmd/chalert/main.go accepts.
use chalert.Prelude.{
  ℕ, ◌≡◌, ◌≢◌, ◌↔◌, ap, subst, inl, inr, Bool-cases, ◌==◌, [], ◌∷◌, ◌++◌, All, some, Option-cases,
  Text, arith,
}
use chalert.Main.{cut_at, parse_label}

cut_at_found : (c : ℕ) (k v : Text) → All (λ d. d ≢ c) k → cut_at c (k ++ c ∷ v) ≡ some (k, v)
unfolding cut_at
cut_at_found c [] v h = ground arith
cut_at_found c (d ∷ k) v h = ground (arith, cut_at_found c k v h.1, h.0)

abbrev IsCut : ℕ → Text → Text × Text → Type 0
IsCut c s p = (s ≡ p.0 ++ c ∷ p.1) × All (λ d. d ≢ c) p.0

cut_at_sound : (c : ℕ) (s : Text) (p : Text × Text) → cut_at c s ≡ some p → IsCut c s p
unfolding cut_at
cut_at_sound c [] p h = ground arith
cut_at_sound c (d ∷ s) p h = elim (Bool-cases (d == c)) [
  | inl hit ↦
      let same : ([], s) ≡ p = ground (arith, hit, h) in
      subst (IsCut c (d ∷ s)) same (ground (arith, hit), tt)
  | inr miss ↦ elim (Option-cases (cut_at c s)) [
    | inl e ↦ ground (arith, miss, e, h)
    | inr (q, e) ↦
        let same : (d ∷ q.0, q.1) ≡ p = ground (arith, miss, e, h) in
        let rec = cut_at_sound c s q e in
        subst (IsCut c (d ∷ s)) same (ap (λ t. d ∷ t) rec.0, ((λ k. ground (arith, miss)), rec.1))
  ]
]

-- A flag is taken as the label `k` with the value `v` exactly when it is `k`, "=" and `v`, where `k`
-- is not empty and has no "=".
pub parse_label_iff :
    (pair k v : Text)
    → (parse_label pair ≡ some (k, v)) ↔ ((pair ≡ k ++ 61 ∷ v) × (k ≢ []) × All (λ d. d ≢ 61) k)
unfolding parse_label
parse_label_iff pair k v = (
  λ h. elim (Option-cases (cut_at 61 pair)) [
    | inl e ↦ ground (arith, e, h)
    | inr (q, e) ↦
        let same : q ≡ (k, v) = ground (arith, e, h) in
        let cut = subst (IsCut 61 pair) same (cut_at_sound 61 pair q e) in
        (cut.0, (λ n. ground (arith, e, h, same, n)), cut.1)
  ],
  λ h. ground (arith, h.0, h.1, cut_at_found 61 k v h.2),
)
