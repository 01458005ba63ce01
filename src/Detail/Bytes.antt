-- ===== src/Detail/Bytes.antt =====
-- The bytes of a value.
use memwrapper.Base.{
  ℕ, zero, suc, ◌+◌, ◌*◌, ◌/◌, ◌^◌, ◌<◌, ◌≡◌, refl, ap, arith, List, [], ◌∷◌, length,
}
use native.Mathlib.Nat.{pow-suc}
use memwrapper.Detail.{byteof}

pub length-byteof : (n value : ℕ) → length (byteof n value) ≡ n
unfolding byteof
length-byteof zero value = refl
length-byteof (suc n) value = ap suc (length-byteof n (value / 256))

-- The number that bytes stand for, lowest first.
unfoldable pub number : List ℕ → ℕ
number [] = 0
number (b ∷ bs) = b + 256 * number bs

-- A value of n bytes is read back from its bytes, for every n.
pub number-byteof : (n value : ℕ) → value < 256 ^ n → number (byteof n value) ≡ value
unfolding byteof number
number-byteof zero value h = omega arith
number-byteof (suc n) value h =
    omega (arith, number-byteof n (value / 256) (omega (arith, pow-suc 256 n)))
