-- ===== src/Base/Words.antt =====
-- 32-bit words and bytes as native numbers.
use Prim.Native.Nat.{ℕ, ◌+◌, ◌-◌, ◌%◌, ◌^◌}

abbrev pub word_mod : ℕ
word_mod = 2 ^ 32

-- `uint32_t` (and `uintptr_t`, `size_t` on 32-bit Windows) arithmetic wraps.
abbrev pub add32 : ℕ → ℕ → ℕ
add32 a b = (a + b) % word_mod

abbrev pub sub32 : ℕ → ℕ → ℕ
sub32 a b = (a + word_mod - b % word_mod) % word_mod

abbrev pub byte : ℕ → ℕ
byte n = n % 256
