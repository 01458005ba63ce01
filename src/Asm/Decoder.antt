-- ===== src/Asm/Decoder.antt =====
-- What the processor makes of the instructions that asm_allocator writes, and of `nop`, as the
-- Intel manual describes their bytes: the description that the encoder is held against.
use memwrapper.Base.{
  ℕ, ◌+◌, ◌-◌, ◌*◌, ◌/◌, ◌%◌, Option, some, none, List, [], ◌∷◌, ltb, leb, ◌&&◌, ◌==◌,
  if◌then◌else◌,
}
use memwrapper.Asm.{Registers, eax, ecx, edx, ebx, esp, ebp, esi, edi}

pub data Instruction : Type 0 where
  push : Registers → Instruction
  pop : Registers → Instruction
  -- A register from memory at a register and a displacement, a 32-bit word.
  load : (target source : Registers) (displacement : ℕ) → Instruction
  -- A register from memory at an address.
  load_absolute : (target : Registers) (address : ℕ) → Instruction
  store_absolute : (address : ℕ) (source : Registers) → Instruction
  jump : (displacement : ℕ) → Instruction
  nop : Instruction

abbrev pub register : ℕ → Registers
register n =
    if n == 0
    then eax
    else if n == 1
    then ecx
    else if n == 2
    then edx
    else if n == 3
    then ebx
    else if n == 4
    then esp
    else if n == 5
    then ebp
    else if n == 6
    then esi
    else edi

-- A byte as a signed displacement of 32 bits.
abbrev pub sign_extend : ℕ → ℕ
sign_extend b = if ltb b 128 then b else b + 0xffff_ff00

abbrev pub Decoded : Type 0
Decoded = Option (Instruction × List ℕ)

-- Four bytes, lowest first.
abbrev with_word : (ℕ → Instruction) → List ℕ → Decoded
with_word f (a ∷ b ∷ c ∷ d ∷ rest) = some (f (a + 256 * (b + 256 * (c + 256 * d))), rest)
with_word f _ = none

abbrev with_byte : (ℕ → Instruction) → List ℕ → Decoded
with_byte f (a ∷ rest) = some (f (sign_extend a), rest)
with_byte f [] = none

-- The SIB byte 0x24: the base is esp, and there is no index.
abbrev with_sib : (List ℕ → Decoded) → List ℕ → Decoded
with_sib k (b ∷ rest) = if b == 0x24 then k rest else none
with_sib k [] = none

-- 8B /r. A base of 4 announces a SIB byte, and a base of 5 without displacement an address.
abbrev decode_load : (mode reg base : ℕ) → List ℕ → Decoded
decode_load mode reg base rest =
    let target = register reg in
    if mode == 0
    then (if base == 4
        then with_sib (λ r. some (load target esp 0, r)) rest
        else if base == 5
        then with_word (load_absolute target) rest
        else some (load target (register base) 0, rest))
    else if mode == 1
    then (if base == 4
        then with_sib (with_byte (load target esp)) rest
        else with_byte (load target (register base)) rest)
    else none

-- 89 /r, of which only the form with an address is read.
abbrev decode_store : (mode reg base : ℕ) → List ℕ → Decoded
decode_store mode reg base rest =
    if (mode == 0) && (base == 5)
    then with_word (λ address. store_absolute address (register reg)) rest
    else none

abbrev with_modrm : (ℕ → ℕ → ℕ → List ℕ → Decoded) → List ℕ → Decoded
with_modrm f (m ∷ rest) = f (m / 64) (m / 8 % 8) (m % 8) rest
with_modrm f [] = none

unfoldable pub decode : List ℕ → Decoded
decode [] = none
decode (op ∷ rest) =
    if leb 0x50 op && ltb op 0x58
    then some (push (register (op - 0x50)), rest)
    else if leb 0x58 op && ltb op 0x60
    then some (pop (register (op - 0x58)), rest)
    else if op == 0x8b
    then with_modrm decode_load rest
    else if op == 0x89
    then with_modrm decode_store rest
    else if op == 0xa3
    then with_word (λ address. store_absolute address eax) rest
    else if op == 0xe9
    then with_word jump rest
    else if op == 0x90
    then some (nop, rest)
    else none
