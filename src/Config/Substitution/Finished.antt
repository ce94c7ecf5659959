-- ===== src/Config/Substitution/Finished.antt =====
-- When the loop of `envSubstitute` in config.go ends.
use chalert.Prelude.{
  ℕ, zero, suc, ◌+◌, ◌-◌, ◌<◌, ◌≤◌, ◌≡◌, ap, ◌∙◌, [], ◌∷◌, ◌++◌, none, some, inl, inr, Text, take,
  drop, arith, ◌==◌, Option-cases, Bool-cases, if◌then◌else◌,
}
use chalert.Config.Substitution.{
  starts_with, index, opening, closing, replace_at, substitute_once, env_substitute,
}

-- How many percent signs a text has.
abbrev percents : Text → ℕ
percents [] = 0
percents (c ∷ s) = (if c == 37 then 1 else 0) + percents s

percents-append : (s t : Text) → percents (s ++ t) ≡ percents s + percents t
percents-append [] t = omega arith
percents-append (c ∷ s) t = omega (arith, percents-append s t)

percents-drop-le : (n : ℕ) (s : Text) → percents (drop n s) ≤ percents s
percents-drop-le zero s = omega arith
percents-drop-le (suc n) [] = omega arith
percents-drop-le (suc n) (c ∷ s) = omega (arith, percents-drop-le n s)

drop-drop : (m n : ℕ) (s : Text) → drop (m + n) s ≡ drop m (drop n s)
drop-drop m zero s = ap (λ k. drop k s) (omega arith)
drop-drop zero (suc n) [] = ap (λ k. drop k []) {x = 0 + suc n} {y = suc n} (omega arith)
drop-drop (suc m) (suc n) [] =
    ap (λ k. drop k []) {x = suc m + suc n} {y = suc (m + suc n)} (omega arith)
drop-drop m (suc n) (c ∷ s) =
    ap (λ k. drop k (c ∷ s)) {x = m + suc n} {y = suc (m + n)} (omega arith) ∙ drop-drop m n s

-- At a match of the opening, the text is split before a percent sign.
percents-index :
    (s : Text) (i : ℕ)
    → index s opening ≡ some i
    → percents (take i s) + suc (percents (drop (suc i) s)) ≡ percents s
unfolding index starts_with
percents-index [] i h = cc
percents-index (c ∷ s) zero h = elim (Bool-cases (c == 37)) [
  | inl hit ↦ ground arith
  | inr miss ↦ ground (arith, Option-cases (index s opening))
]
percents-index (c ∷ s) (suc i) h = ground (arith, percents-index s i)

percents-replace_at :
    (getenv : Text → Text) (s : Text) (start offset : ℕ)
    → ((name : Text) → percents (getenv name) ≡ 0)
    → index s opening ≡ some start
    → percents (replace_at getenv s start offset) < percents s
unfolding replace_at
percents-replace_at getenv s start offset clean h =
    let name = take (offset + start - (start + 2)) (drop (start + 2) s) in
    let rest = drop (offset + start + 1) s in
    let e : rest ≡ drop offset (drop (suc start) s) =
      ap (λ k. drop k s) {x = offset + start + 1} {y = offset + suc start} (omega arith)
      ∙ drop-drop offset (suc start) s in
    omega (
      arith,
      percents-index s start h,
      percents-append (take start s) (getenv name ++ rest),
      percents-append (getenv name) rest,
      clean name,
      ap percents e,
      percents-drop-le offset (drop (suc start) s),
    )

substitute_once-lt :
    (getenv : Text → Text) (s s' : Text)
    → ((name : Text) → percents (getenv name) ≡ 0)
    → substitute_once getenv s ≡ some s'
    → percents s' < percents s
unfolding substitute_once
substitute_once-lt getenv s s' clean h = elim (Option-cases (index s opening)) [
  | inl e ↦ ground arith
  | inr (start, e) ↦ elim (Option-cases (index (drop start s) closing)) [
    | inl e' ↦ ground arith
    | inr (offset, e') ↦ ground (arith, percents-replace_at getenv s start offset clean e)
  ]
]

-- If no variable's value holds a percent sign, then the loop ends in as many rounds as the text has
-- percent signs, and one more, and in what it returns there is nothing left to replace.
pub env_substitute_ends :
    (getenv : Text → Text) (fuel : ℕ) (s : Text)
    → ((name : Text) → percents (getenv name) ≡ 0)
    → percents s < fuel
    → (out : Text) × (env_substitute fuel getenv s ≡ some out) × (substitute_once getenv out ≡ none)
unfolding env_substitute
env_substitute_ends getenv zero s clean h = absurd (omega arith)
env_substitute_ends getenv (suc fuel) s clean h = elim (Option-cases (substitute_once getenv s)) [
  | inl e ↦ (s, rw (e, env_substitute), e)
  | inr (s', e) ↦
      let (out, p, q) =
        env_substitute_ends getenv fuel s' clean
          (omega (arith, substitute_once-lt getenv s s' clean e)) in
      (out, rw (e, env_substitute) p, q)
]
