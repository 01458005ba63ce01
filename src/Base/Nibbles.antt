-- ===== src/Base/Nibbles.antt =====
-- Facts about the halves of a byte, by evaluation at each byte.
use Prim.Native.Nat.{ℕ, zero, suc, ◌+◌, ◌<◌, ◌%◌, bit_and, bit_or}
use mathlib.Core.Path.{◌≡◌, refl}
use mathlib.Core.Bool.{Bool, true, ◌&&◌, ◌||◌}
use native.Mathlib.Omega.{arith}
use memwrapper.Base.Tests.{◌==◌, ==_iff, leb, ltb, same, same_eq}

all_below : ℕ → (ℕ → Bool) → Bool
all_below zero p = true
all_below (suc n) p = p n && all_below n p

at_below : (n : ℕ) (p : ℕ → Bool) (x : ℕ) → all_below n p ≡ true → x < n → p x ≡ true
unfolding all_below
at_below zero p x h lt = absurd (omega arith)
at_below (suc n) p x h lt = ground (arith, at_below n p x)

high_half_table :
    all_below 256 (λ x. same (bit_and x 0xf0 == 0x70) (leb 0x70 x && ltb x 0x80)) ≡ true
unfolding all_below
high_half_table = refl

jump_table : all_below 256 (λ x. same (bit_and x 0xfd == 0xe9) ((x == 0xe9) || (x == 0xeb))) ≡ true
unfolding all_below
jump_table = refl

low_half_table : all_below 256 (λ x. bit_or 0x80 (bit_and x 0x0f) == 0x80 + x % 16) ≡ true
unfolding all_below
low_half_table = refl

high_half2_table :
    all_below 256 (λ x. same (bit_and x 0xf0 == 0x80) (leb 0x80 x && ltb x 0x90)) ≡ true
unfolding all_below
high_half2_table = refl

pub short_jcc : (x : ℕ) → x < 256 → (bit_and x 0xf0 == 0x70) ≡ (leb 0x70 x && ltb x 0x80)
short_jcc x h = same_eq _ _ (at_below 256 _ x high_half_table h)

pub long_jcc : (x : ℕ) → x < 256 → (bit_and x 0xf0 == 0x80) ≡ (leb 0x80 x && ltb x 0x90)
long_jcc x h = same_eq _ _ (at_below 256 _ x high_half2_table h)

pub near_or_short : (x : ℕ) → x < 256 → (bit_and x 0xfd == 0xe9) ≡ ((x == 0xe9) || (x == 0xeb))
near_or_short x h = same_eq _ _ (at_below 256 _ x jump_table h)

pub low_half : (x : ℕ) → x < 256 → bit_or 0x80 (bit_and x 0x0f) ≡ 0x80 + x % 16
low_half x h = (==_iff _ _).0 (at_below 256 _ x low_half_table h)
