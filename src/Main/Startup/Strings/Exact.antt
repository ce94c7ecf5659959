-- ===== src/Main/Startup/Strings/Exact.antt =====
-- What cutting a flag at a byte and trimming the line ends of a password give (cmd/chalert/main.go).
use chalert.Prelude.{
  ℕ, ◌≡◌, ◌≢◌, refl, ap, inl, inr, true, false, Bool-cases, ◌==◌, List, [], ◌∷◌, ◌++◌, All, Text,
  arith,
}
use chalert.Main.Startup.Strings.{
  extend_first, split, join, is_line_end, prepend_unless_end, trim_right,
}

abbrev pub IsSplit : ℕ → Text → List Text → Type 0
IsSplit sep s [] = ⊥
IsSplit sep s (part ∷ parts) =
    (join sep (part ∷ parts) ≡ s) × All (λ p. All (λ c. c ≢ sep) p) (part ∷ parts)

new_part :
    (sep c : ℕ) (s : Text) (parts : List Text)
    → c ≡ sep
    → IsSplit sep s parts
    → IsSplit sep (c ∷ s) ([] ∷ parts)
new_part sep c s [] e h = absurd h
new_part sep c s (part ∷ parts) e h = (rw e (ap (λ t. sep ∷ t) h.0), (tt, h.1))

same_part :
    (sep c : ℕ) (s : Text) (parts : List Text)
    → c ≢ sep
    → IsSplit sep s parts
    → IsSplit sep (c ∷ s) (extend_first c parts)
same_part sep c s [] e h = absurd h
same_part sep c s (part ∷ []) e h = (ap (λ t. c ∷ t) h.0, ((e, h.1.0), tt))
same_part sep c s (part ∷ next ∷ parts) e h = (ap (λ t. c ∷ t) h.0, ((e, h.1.0), h.1.1))

-- Cutting a text at a byte gives parts without that byte, and joined with the byte they are the text.
pub split_lem : (sep : ℕ) (s : Text) → IsSplit sep s (split sep s)
unfolding split
split_lem sep [] = (refl, (tt, tt))
split_lem sep (c ∷ s) = elim (Bool-cases (c == sep)) [
  | inl e ↦ rw e (new_part sep c s (split sep s) (ground (arith, e)) (split_lem sep s))
  | inr e ↦ rw e (same_part sep c s (split sep s) (ground (arith, e)) (split_lem sep s))
]

abbrev pub EndsClean : Text → Type 0
EndsClean [] = Unit
EndsClean (c ∷ []) = is_line_end c ≡ false
EndsClean (c ∷ d ∷ s) = EndsClean (d ∷ s)

-- A text without the line ends at its end.
abbrev pub IsTrimmed : Text → Text → Type 0
IsTrimmed s t =
    ((ends : Text) × (s ≡ t ++ ends) × All (λ c. is_line_end c ≡ true) ends) × EndsClean t

prepend_unless_end-IsTrimmed :
    (c : ℕ) (s t : Text) → IsTrimmed s t → IsTrimmed (c ∷ s) (prepend_unless_end c t)
prepend_unless_end-IsTrimmed c s [] ((ends, e, all), clean) = elim (Bool-cases (is_line_end c)) [
  | inl h ↦ rw h ((c ∷ ends, ap (λ t. c ∷ t) e, (h, all)), tt)
  | inr h ↦ rw h ((ends, ap (λ t. c ∷ t) e, all), h)
]
prepend_unless_end-IsTrimmed c s (d ∷ t) ((ends, e, all), clean) =
    ((ends, ap (λ t. c ∷ t) e, all), clean)

-- A password file gives the password without the line ends at its end: what is cut off are line ends
-- only, and what is left does not end in one.
pub trim_right_lem : (s : Text) → IsTrimmed s (trim_right s)
unfolding trim_right
trim_right_lem [] = (([], refl, tt), tt)
trim_right_lem (c ∷ s) = prepend_unless_end-IsTrimmed c s (trim_right s) (trim_right_lem s)
