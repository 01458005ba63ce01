-- ===== src/Detail/Addresses.antt =====
-- Relative addresses and alignment.
use memwrapper.Base.{
  ℕ, ◌+◌, ◌*◌, ◌/◌, ◌%◌, ◌≤◌, ◌<◌, ◌≡◌, arith, word_mod, if◌then◌else◌, ◌==◌, ==_iff, ne_of_==,
  Bool-cases, inl, inr,
}
use native.Mathlib.Nat.{div-add-mod, mod-lt, mul-mod_left}
use memwrapper.Detail.{get_relative_address, restore_absolute_address, align_value}

-- The displacement of a jump leads back to its target, wherever both are.
pub restore-get_relative_address :
    (to from oplen : ℕ)
    → to < word_mod
    → restore_absolute_address (get_relative_address to from oplen) from oplen ≡ to
unfolding restore_absolute_address get_relative_address
restore-get_relative_address to from oplen h = omega arith

pub get_relative_address-lt : (to from oplen : ℕ) → get_relative_address to from oplen < word_mod
unfolding get_relative_address
get_relative_address-lt to from oplen = omega arith

-- The target of a displacement has that displacement.
pub get-restore_absolute_address :
    (imm from oplen : ℕ)
    → imm < word_mod
    → get_relative_address (restore_absolute_address imm from oplen) from oplen ≡ imm
unfolding restore_absolute_address get_relative_address
get-restore_absolute_address imm from oplen h = omega arith

-- Where nothing wraps, the result is the multiple of the alignment at or after the value.
align_value-mul :
    (value alignment : ℕ)
    → 0 < alignment
    → value + alignment ≤ word_mod
    → align_value value alignment
      ≡ (if value % alignment == 0 then value / alignment else value / alignment + 1) * alignment
unfolding align_value
align_value-mul value alignment pos fits = elim (Bool-cases (value % alignment == 0)) [
  | inl e ↦ rw e (omega (arith, (==_iff _ _).0 e, div-add-mod value alignment))
  | inr e ↦ rw e (omega (arith, ne_of_== _ _ e, div-add-mod value alignment, mod-lt value pos))
]

-- `align_value` gives a multiple of the alignment that is no less than the value, and by less than
-- the alignment, so the least such; where the sum of both is a word.
pub align_value-least :
    (value alignment : ℕ)
    → 0 < alignment
    → value + alignment ≤ word_mod
    → (align_value value alignment % alignment ≡ 0)
      × (value ≤ align_value value alignment)
      × (align_value value alignment < value + alignment)
align_value-least value alignment pos fits = rw (align_value-mul value alignment pos fits) (
  mul-mod_left _ alignment,
  elim (Bool-cases (value % alignment == 0)) [
    | inl e ↦ rw e (omega (arith, (==_iff _ _).0 e, div-add-mod value alignment))
    | inr e ↦ rw e (omega (arith, div-add-mod value alignment, mod-lt value pos))
  ],
  elim (Bool-cases (value % alignment == 0)) [
    | inl e ↦ rw e (omega (arith, div-add-mod value alignment))
    | inr e ↦ rw e (omega (arith, ne_of_== _ _ e, div-add-mod value alignment))
  ],
)
