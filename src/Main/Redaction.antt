-- ===== src/Main/Redaction.antt =====
-- What redactDSN of cmd/chalert/main.go shows of a DSN.
use chalert.Prelude.{
  ℕ, zero, suc, ◌+◌, ◌≡◌, ◌≢◌, refl, ap, subst, sym, [], ◌∷◌, ◌++◌, length, take, drop, All, some,
  Text, codes, arith,
}
use chalert.Config.Substitution.{index, starts_with}
use chalert.Main.{redact_dsn}

-- A scheme, "://", the user information, "@", and the rest.
abbrev pub dsn_of : Text → Text → Text → Text
dsn_of scheme info rest = scheme ++ 58 ∷ 47 ∷ 47 ∷ (info ++ 64 ∷ rest)

index_byte :
    (c : ℕ) (s t : Text) → All (λ d. d ≢ c) s → index (s ++ c ∷ t) (c ∷ []) ≡ some (length s)
unfolding index starts_with
index_byte c [] t h = ground arith
index_byte c (d ∷ s) t h = ground (arith, index_byte c s t h.1, h.0)

index_at :
    (scheme info rest : Text)
    → All (λ d. d ≢ 64) scheme
    → All (λ d. d ≢ 64) info
    → index (dsn_of scheme info rest) (64 ∷ []) ≡ some (length scheme + (3 + length info))
unfolding index starts_with
index_at [] info rest hs hi = ground (arith, index_byte 64 info rest hi)
index_at (d ∷ scheme) info rest hs hi = ground (arith, index_at scheme info rest hs.1 hi, hs.0)

index_slashes :
    (scheme t : Text)
    → All (λ d. d ≢ 58) scheme
    → index (scheme ++ 58 ∷ 47 ∷ 47 ∷ t) (58 ∷ 47 ∷ 47 ∷ []) ≡ some (length scheme)
unfolding index starts_with
index_slashes [] t h = ground arith
index_slashes (d ∷ scheme) t h = ground (arith, index_slashes scheme t h.1, h.0)

take_scheme :
    (scheme t : Text) (n : ℕ)
    → n ≡ length scheme + 3
    → take n (scheme ++ 58 ∷ 47 ∷ 47 ∷ t) ≡ scheme ++ 58 ∷ 47 ∷ 47 ∷ []
take_scheme [] t n e = subst (λ k. take k (58 ∷ 47 ∷ 47 ∷ t) ≡ 58 ∷ 47 ∷ 47 ∷ []) (sym e) refl
take_scheme (d ∷ scheme) t zero e = absurd (omega (arith, e))
take_scheme (d ∷ scheme) t (suc n) e = ap (λ s. d ∷ s) (take_scheme scheme t n (omega (arith, e)))

drop_byte : (s t : Text) (c n : ℕ) → n ≡ suc (length s) → drop n (s ++ c ∷ t) ≡ t
drop_byte [] t c n e = subst (λ k. drop k (c ∷ t) ≡ t) (sym e) refl
drop_byte (d ∷ s) t c zero e = absurd (omega (arith, e))
drop_byte (d ∷ s) t c (suc n) e = drop_byte s t c n (omega (arith, e))

drop_info :
    (scheme info rest : Text) (n : ℕ)
    → n ≡ suc (length scheme + (3 + length info))
    → drop n (dsn_of scheme info rest) ≡ rest
drop_info [] info rest n e = drop_byte (58 ∷ 47 ∷ 47 ∷ info) rest 64 n (omega (arith, e))
drop_info (d ∷ scheme) info rest zero e = absurd (omega (arith, e))
drop_info (d ∷ scheme) info rest (suc n) e = drop_info scheme info rest n (omega (arith, e))

-- The user information up to the first "@" is not shown, and all that follows that "@" is: so the
-- end of a password that has an "@" itself stands in the log.
pub redact_dsn_shows :
    (scheme info rest : Text)
    → All (λ d. d ≢ 58) scheme
    → All (λ d. d ≢ 64) scheme
    → All (λ d. d ≢ 64) info
    → redact_dsn (dsn_of scheme info rest) ≡ (scheme ++ codes "://") ++ codes "***@" ++ rest
unfolding redact_dsn
redact_dsn_shows scheme info rest hc hs hi = ground (
  arith,
  index_at scheme info rest hs hi,
  index_slashes scheme (info ++ 64 ∷ rest) hc,
  take_scheme scheme (info ++ 64 ∷ rest) (length scheme + 3) refl,
  drop_info scheme info rest (length scheme + (3 + length info) + 1) (omega arith),
)
