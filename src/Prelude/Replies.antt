-- ===== src/Prelude/Replies.antt =====
-- The answer of a call outside the program: a value or an error, whose text is all that is known of it.
use mathlib.Core.Path.{◌≡◌, refl}
use mathlib.Core.Logic.{◌⊎◌, inl, inr}
use chalert.Prelude.Bytes.{Text}

pub data Reply (A : Type 0) : Type 0 where
  given : A → Reply A
  denied : Text → Reply A

pub Reply-cases :
    {A : Type 0} (x : Reply A) → ((a : A) × (x ≡ given a)) ⊎ ((e : Text) × (x ≡ denied e))
Reply-cases (given a) = inl (a, refl)
Reply-cases (denied e) = inr (e, refl)
