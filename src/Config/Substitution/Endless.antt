-- ===== src/Config/Substitution/Endless.antt =====
-- When the loop of `envSubstitute` in config.go never ends.
use chalert.Prelude.{
  ℕ, zero, suc, ◌+◌, ◌-◌, ◌≡◌, ◌≢◌, refl, ap, ◌∙◌, [], ◌∷◌, ◌++◌, none, some, Text, take, drop,
  length, All, arith,
}
use chalert.Config.Substitution.{
  starts_with, index, closing, replace_at, substitute_once, env_substitute,
}

-- `%{name}`.
abbrev pub reference : Text → Text
reference name = 37 ∷ 123 ∷ (name ++ closing)

index-closing :
    (name post : Text)
    → All (λ c. c ≢ 125) name
    → index ((name ++ closing) ++ post) closing ≡ some (length name)
unfolding index starts_with
index-closing [] post h = refl
index-closing (c ∷ name) post h = ground (arith, h.0, index-closing name post h.1)

drop-reference : (name post : Text) → drop (suc (length name)) ((name ++ closing) ++ post) ≡ post
drop-reference [] post = refl
drop-reference (c ∷ name) post = drop-reference name post

take-reference : (name post : Text) → take (length name) ((name ++ closing) ++ post) ≡ name
take-reference [] post = refl
take-reference (c ∷ name) post = cc (take-reference name post)

replace-reference :
    (getenv : Text → Text) (name post : Text)
    → replace_at getenv (reference name ++ post) 0 (suc (suc (length name))) ≡ getenv name ++ post
unfolding replace_at
replace-reference getenv name post =
    let s = reference name ++ post in
    let n = length name in
    let inner : take (suc (suc n) + 0 - 2) ((name ++ closing) ++ post) ≡ name =
      ap (λ k. take k ((name ++ closing) ++ post)) {x = suc (suc n) + 0 - 2} {y = n} (omega arith)
      ∙ take-reference name post in
    let outer : drop (suc (suc n) + 0 + 1) s ≡ post =
      ap (λ k. drop k s) {x = suc (suc n) + 0 + 1} {y = suc (suc (suc n))} (omega arith)
      ∙ drop-reference name post in
    cc (inner, outer)

substitute_reference :
    (getenv : Text → Text) (name post : Text)
    → All (λ c. c ≢ 125) name
    → substitute_once getenv (reference name ++ post) ≡ some (getenv name ++ post)
unfolding substitute_once index starts_with
substitute_reference getenv name post h =
    ground (arith, index-closing name post h, replace-reference getenv name post)

-- If the value of a variable is the reference to itself, then a text that begins with the reference
-- keeps the loop going for ever: no number of rounds is enough.
pub env_substitute_endless :
    (getenv : Text → Text) (name post : Text) (fuel : ℕ)
    → All (λ c. c ≢ 125) name
    → getenv name ≡ reference name
    → env_substitute fuel getenv (reference name ++ post) ≡ none
unfolding env_substitute
env_substitute_endless getenv name post zero h e = refl
env_substitute_endless getenv name post (suc fuel) h e =
    rw (substitute_reference getenv name post h, env_substitute)
      (rw e (env_substitute_endless getenv name post fuel h e))
