-- ===== src/Main/Startup/Strings.antt =====
-- The functions of package strings that cmd/chalert/main.go cuts its flags with: `Split` at a byte, and
-- `TrimRight` with the line ends.
pub mod Exact
use chalert.Prelude.{
  ℕ, ◌≡◌, ◌≢◌, refl, ap, Bool, true, false, Bool-cases, ◌==◌, ◌||◌, inl, inr, List, [], ◌∷◌, ◌++◌,
  All, Text, arith, if◌then◌else◌,
}

-- A byte before the parts of what follows it.
abbrev extend_first : ℕ → List Text → List Text
extend_first c [] = (c ∷ []) ∷ []
extend_first c (part ∷ parts) = (c ∷ part) ∷ parts

-- `strings.Split` at one byte.
unfoldable pub split : ℕ → Text → List Text
split sep [] = [] ∷ []
split sep (c ∷ s) = let rest = split sep s in if c == sep then [] ∷ rest else extend_first c rest

-- `strings.Join`.
abbrev pub join : ℕ → List Text → Text
join sep [] = []
join sep (part ∷ []) = part
join sep (part ∷ next ∷ parts) = part ++ sep ∷ join sep (next ∷ parts)

abbrev pub is_line_end : ℕ → Bool
is_line_end c = c == 10 || c == 13

abbrev prepend_unless_end : ℕ → Text → Text
prepend_unless_end c [] = if is_line_end c then [] else c ∷ []
prepend_unless_end c (d ∷ s) = c ∷ d ∷ s

-- `strings.TrimRight(s, "\n\r")`.
unfoldable pub trim_right : Text → Text
trim_right [] = []
trim_right (c ∷ s) = prepend_unless_end c (trim_right s)
