-- ===== src/Hash.antt =====
-- `hash/fnv`: the 64-bit FNV-1a hash that identifies label sets, rules, groups and snapshots.
use Prim.Native.Nat.{bit_xor}
use chalert.Prelude.{ℕ, ◌*◌, ◌%◌, ◌^◌, [], ◌∷◌, ◌++◌, ◌≡◌, refl, Text}

abbrev fnv_prime : ℕ
fnv_prime = 1099511628211

-- The state of `fnv.New64a()`.
abbrev pub offset_basis : ℕ
offset_basis = 14695981039346656037

abbrev write_byte : ℕ → ℕ → ℕ
write_byte h b = bit_xor h b * fnv_prime % 2 ^ 64

-- `h.Write(bytes)`.
unfoldable pub write : ℕ → Text → ℕ
write h [] = h
write h (b ∷ bs) = write (write_byte h b) bs

-- The hash sees the bytes written, not how they were cut into writes.
pub write-append : (h : ℕ) (s t : Text) → write h (s ++ t) ≡ write (write h s) t
unfolding write
write-append h [] t = refl
write-append h (b ∷ s) t = write-append (write_byte h b) s t
