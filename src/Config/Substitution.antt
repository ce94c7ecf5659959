-- ===== src/Config/Substitution.antt =====
-- `envSubstitute` of config.go. The environment is a parameter: `os.Getenv`.
pub mod Endless
pub mod Finished
use chalert.Prelude.{
  ℕ, zero, suc, ◌+◌, ◌-◌, Bool, true, false, ◌&&◌, List, [], ◌∷◌, ◌++◌, Option, none, some, Text,
  codes, take, drop, ◌==◌, if◌then◌else◌,
}
use mathlib.Core.Option

unfoldable pub starts_with : Text → Text → Bool
starts_with [] s = true
starts_with (d ∷ p) [] = false
starts_with (d ∷ p) (c ∷ s) = c == d && starts_with p s

abbrev next : Option ℕ → Option ℕ
next none = none
next (some i) = some (suc i)

-- `strings.Index(s, p)`, `none` for -1.
unfoldable pub index : Text → Text → Option ℕ
unfolding starts_with
index [] p = if starts_with p [] then some 0 else none
index (c ∷ s) p = let rest = next (index s p) in if starts_with p (c ∷ s) then some 0 else rest

-- "%{" and "}".
abbrev opening : Text
opening = 37 ∷ 123 ∷ []

abbrev closing : Text
closing = 125 ∷ []

-- The replacement, with `start` and the offset of the closing brace from it.
replace_at : (Text → Text) → Text → ℕ → ℕ → Text
replace_at getenv s start offset =
    let end = offset + start in
    let env_var = take (end - (start + 2)) (drop (start + 2) s) in
    take start s ++ (getenv env_var ++ drop (end + 1) s)

-- One round of the loop: `none` is a `break`.
pub substitute_once : (Text → Text) → Text → Option Text
unfolding index replace_at
substitute_once getenv s = elim (index s opening) [
  | none ↦ none
  | some start ↦ elim (index (drop start s) closing) [
    | none ↦ none
    | some offset ↦ some (replace_at getenv s start offset)
  ]
]

-- The loop, for as many rounds as there is fuel; `none` means that the fuel ran out.
unfoldable pub env_substitute : ℕ → (Text → Text) → Text → Option Text
unfolding substitute_once
env_substitute zero getenv s = none
env_substitute (suc fuel) getenv s = elim (substitute_once getenv s) [
  | none ↦ some s
  | some s' ↦ env_substitute fuel getenv s'
]
