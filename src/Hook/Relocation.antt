-- ===== src/Hook/Relocation.antt =====
-- generate_trampoline_instructions: the instructions under the hook's jump, written again for the
-- trampoline.
pub mod Targets
pub mod Rewritten
pub mod Writes
pub mod Copies
pub mod Branches
pub mod Ends
pub mod Short
use Prim.Native.Nat.{bit_and, bit_or}
use memwrapper.Base.{
  ℕ, zero, suc, ◌+◌, Bool, none, List, [], ◌∷◌, ◌||◌, ◌&&◌, not, add32, leb, ◌==◌, if◌then◌else◌,
  length,
}
use memwrapper.Machine.{Bytes, M, World, pure, ◌>>=◌}
use memwrapper.Windows.{Windows}
use memwrapper.Detail.{
  get_relative_address, restore_absolute_address, jump_oplen, jmp_bytes_of, jcc_bytes_of,
}
use memwrapper.Allocator.{BasicAllocator, now, db_bytes, db_object}
use memwrapper.Asm
use memwrapper.Hook.Disassembler.{Hde32s, Disassembler, disassemble, imm8, has, f_error}

-- What `opcode` and `oplen` describe: one of the local structures, or the original instruction.
pub data Piece : Type 0 where
  structure : List ℕ → Piece
  original : Piece

-- call_relative, jmp_relative and jcc_relative as their packed bytes.
abbrev pub call_relative : (operand : ℕ) → List ℕ
call_relative operand = jmp_bytes_of (record { opcode = 0xe8; operand = operand })

abbrev pub jmp_relative : (operand : ℕ) → List ℕ
jmp_relative operand = jmp_bytes_of (record { opcode = 0xe9; operand = operand })

abbrev pub jcc_relative : (opcode2 operand : ℕ) → List ℕ
jcc_relative opcode2 operand =
    jcc_bytes_of (record { opcode = 0x0f; opcode2 = opcode2; operand = operand })

unfoldable pub is_jmp : Hde32s → Bool
is_jmp hs = bit_and hs.opcode 0xfd == 0xe9

unfoldable pub is_jcc : Hde32s → Bool
is_jcc hs = (bit_and hs.opcode 0xf0 == 0x70) || (bit_and hs.opcode2 0xf0 == 0x80)

-- Where a jump at `p` leads, as the code computes it.
unfoldable pub jmp_destination : (p : ℕ) → Hde32s → ℕ
jmp_destination p hs = add32 (add32 p hs.len) (if hs.opcode == 0xeb then imm8 hs else hs.imm32)

unfoldable pub jcc_destination : (p : ℕ) → Hde32s → ℕ
jcc_destination p hs =
    add32 (add32 p hs.len) (if bit_and hs.opcode 0xf0 == 0x70 then imm8 hs else hs.imm32)

-- The condition, from the second opcode byte of the long form or the opcode of the short one.
unfoldable pub condition : Hde32s → ℕ
condition hs = bit_and (if not (hs.opcode == 0x0f) then hs.opcode else hs.opcode2) 0x0f

-- The instruction at `p` for the trampoline's cursor `cursor`.
unfoldable pub relocate : (p cursor : ℕ) → Hde32s → Piece
relocate p cursor hs =
    if hs.opcode == 0xe8
    then structure (
        call_relative
          (get_relative_address (restore_absolute_address hs.imm32 p jump_oplen) cursor jump_oplen))
    else if is_jmp hs
    then structure (jmp_relative (get_relative_address (jmp_destination p hs) cursor jump_oplen))
    else if is_jcc hs
    then structure (
        jcc_relative (bit_or 0x80 (condition hs))
          (get_relative_address (jcc_destination p hs) cursor 6))
    else original

abbrev pub oplen : Piece → (len : ℕ) → ℕ
oplen (structure bs) len = length bs
oplen original len = len

module _ (win : Windows) (hde32_disasm : Disassembler) where
  open win use {Kernel}

  unfoldable pub emit : Piece → (p len : ℕ) → BasicAllocator → M Kernel BasicAllocator
  emit (structure bs) p len a = db_bytes win bs a
  emit original p len a = db_object win p len a

  -- The loop, with fuel: `step` grows in each round that does not leave it.
  unfoldable pub generate : (fuel size p step : ℕ) → BasicAllocator → M Kernel BasicAllocator
  generate zero size p step a = λ w. none
  generate (suc fuel) size p step a =
      if leb size step
      then Asm.jmp win p a
      else (disassemble win hde32_disasm p >>= λ hs.
          let piece = relocate p (now a) hs in
          if has f_error hs
          then pure a
          else (emit piece p hs.len a >>= λ a'.
              generate fuel size (p + hs.len) (step + oplen piece hs.len) a'))
