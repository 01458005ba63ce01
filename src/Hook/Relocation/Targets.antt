-- ===== src/Hook/Relocation/Targets.antt =====
-- Where relocated instructions lead.
use Prim.Native.Nat.{bit_and}
use memwrapper.Base.{
  ℕ, ◌+◌, ◌%◌, ◌≤◌, ◌<◌, ◌≡◌, ◌↔◌, ◌⊎◌, ap, ◌∙◌, true, false, arith, add32, false, ◌==◌,
  if◌then◌else◌, inl, inr, word_mod,
}
use memwrapper.Base.Nibbles.{short_jcc, long_jcc, near_or_short, low_half}
use memwrapper.Detail.{get_relative_address, restore_absolute_address, jump_oplen}
use memwrapper.Detail.Addresses.{restore-get_relative_address}
use memwrapper.Asm.Decoder.{sign_extend}
use memwrapper.Hook.Disassembler.{Hde32s, imm8}
use memwrapper.Hook.Relocation.{
  structure, call_relative, jmp_relative, jcc_relative, is_jmp, is_jcc, jmp_destination,
  jcc_destination, condition, relocate,
}

-- Where a short jump at `p` leads on the processor: its byte is a signed displacement.
abbrev pub short_target : (p : ℕ) → Hde32s → ℕ
short_target p hs = add32 (add32 p hs.len) (sign_extend (imm8 hs))

-- Where a relative instruction with 32 bits leads on the processor.
abbrev pub near_target : (p : ℕ) → Hde32s → ℕ
near_target p hs = add32 (add32 p hs.len) hs.imm32

short_eq_iff : (base b : ℕ) → b < 256 → (add32 base b ≡ add32 base (sign_extend b)) ↔ (b < 128)
short_eq_iff base b h = (λ e. ground arith, λ lt. ground arith)

-- For a short jump the code's destination is the processor's exactly when the displacement byte is
-- below 128: the code does not extend its sign, so jumps back are given a target 256 bytes on.
pub short_destination-eq_iff :
    (p : ℕ) (hs : Hde32s)
    → hs.opcode ≡ 0xeb
    → (jmp_destination p hs ≡ short_target p hs) ↔ (imm8 hs < 128)
unfolding jmp_destination
short_destination-eq_iff p hs e =
    rw (ap (λ o. o == 0xeb) e) (short_eq_iff (add32 p hs.len) (imm8 hs) (omega arith))

get_relative_address-lt : (to from oplen : ℕ) → get_relative_address to from oplen < word_mod
unfolding get_relative_address
get_relative_address-lt to from oplen = omega arith

-- A relative call of five bytes is relocated to a call of the same target, for every cursor.
pub relocate-call :
    (p cursor : ℕ) (hs : Hde32s)
    → hs.opcode ≡ 0xe8
    → hs.len ≡ 5
    → (operand : ℕ) × (operand < word_mod)
      × (relocate p cursor hs ≡ structure (call_relative operand))
      × (restore_absolute_address operand cursor jump_oplen ≡ near_target p hs)
unfolding relocate restore_absolute_address
relocate-call p cursor hs e l = (
  get_relative_address target cursor jump_oplen,
  get_relative_address-lt target cursor jump_oplen,
  rw (ap (λ o. o == 0xe8) e),
  restore-get_relative_address target cursor jump_oplen (omega arith) ∙ omega arith,
)
  where
    target : ℕ
    target = restore_absolute_address hs.imm32 p jump_oplen

-- A jump with 32 bits, or a short one forward, is relocated to a jump to the same target, for
-- every cursor.
pub relocate-jmp :
    (p cursor : ℕ) (hs : Hde32s)
    → (hs.opcode ≡ 0xe9) ⊎ ((hs.opcode ≡ 0xeb) × (imm8 hs < 128))
    → (operand : ℕ) × (operand < word_mod)
      × (relocate p cursor hs ≡ structure (jmp_relative operand))
      × (restore_absolute_address operand cursor jump_oplen
          ≡ (if hs.opcode == 0xeb then short_target p hs else near_target p hs))
unfolding relocate is_jmp jmp_destination
relocate-jmp p cursor hs (inl e) = (
  get_relative_address (near_target p hs) cursor jump_oplen,
  get_relative_address-lt (near_target p hs) cursor jump_oplen,
  rw (ap (λ o. o == 0xe8) e, ap (λ o. bit_and o 0xfd == 0xe9) e, ap (λ o. o == 0xeb) e),
  rw (ap (λ o. o == 0xeb) e)
      (restore-get_relative_address (near_target p hs) cursor jump_oplen (omega arith)),
)
relocate-jmp p cursor hs (inr (e, lt)) = (
  get_relative_address (jmp_destination p hs) cursor jump_oplen,
  get_relative_address-lt (jmp_destination p hs) cursor jump_oplen,
  rw (ap (λ o. o == 0xe8) e, ap (λ o. bit_and o 0xfd == 0xe9) e),
  rw (ap (λ o. o == 0xeb) e) (
      restore-get_relative_address (add32 (add32 p hs.len) (imm8 hs)) cursor jump_oplen
        (omega arith)
      ∙ (short_eq_iff (add32 p hs.len) (imm8 hs) (omega arith)).1 lt),
)

-- A conditional jump in its short form, forward, or in its long form, is relocated to the long
-- form with the same condition and the same target, for every cursor.
pub relocate-jcc :
    (p cursor : ℕ) (hs : Hde32s)
    → ((0x70 ≤ hs.opcode) × (hs.opcode < 0x80) × (imm8 hs < 128))
      ⊎ ((hs.opcode ≡ 0x0f) × (0x80 ≤ hs.opcode2) × (hs.opcode2 < 0x90))
    → (operand : ℕ) × (operand < word_mod)
      × (relocate p cursor hs
          ≡ structure (
              jcc_relative
                (0x80 + (if hs.opcode == 0x0f then hs.opcode2 else hs.opcode) % 16)
                operand))
      × (restore_absolute_address operand cursor 6
          ≡ (if hs.opcode == 0x0f then near_target p hs else short_target p hs))
unfolding relocate is_jmp is_jcc jcc_destination condition
relocate-jcc p cursor hs (inl (lo, hi, lt)) =
    let no_call : (hs.opcode == 0xe8) ≡ false = ground arith in
    let no_jmp : (bit_and hs.opcode 0xfd == 0xe9) ≡ false =
      near_or_short hs.opcode (omega arith) ∙ ground arith in
    let is_short : (bit_and hs.opcode 0xf0 == 0x70) ≡ true =
      short_jcc hs.opcode (omega arith) ∙ ground arith in
    let no_escape : (hs.opcode == 0x0f) ≡ false = ground arith in
    (
      get_relative_address (jcc_destination p hs) cursor 6,
      get_relative_address-lt (jcc_destination p hs) cursor 6,
      rw (no_call, no_jmp, is_short, no_escape, low_half hs.opcode (omega arith)),
      rw (no_escape, is_short)
          (restore-get_relative_address (add32 (add32 p hs.len) (imm8 hs)) cursor 6 (omega arith)
            ∙ (short_eq_iff (add32 p hs.len) (imm8 hs) (omega arith)).1 lt),
    )
relocate-jcc p cursor hs (inr (e, lo, hi)) =
    let is_long : (bit_and hs.opcode2 0xf0 == 0x80) ≡ true =
      long_jcc hs.opcode2 (omega arith) ∙ ground arith in
    (
      get_relative_address (near_target p hs) cursor 6,
      get_relative_address-lt (near_target p hs) cursor 6,
      rw (
        ap (λ o. o == 0xe8) e,
        ap (λ o. bit_and o 0xfd == 0xe9) e,
        ap (λ o. bit_and o 0xf0 == 0x70) e,
        ap (λ o. o == 0x0f) e,
        is_long,
        low_half hs.opcode2 (omega arith),
      ),
      rw (ap (λ o. o == 0x0f) e)
          (restore-get_relative_address (near_target p hs) cursor 6 (omega arith)),
    )
