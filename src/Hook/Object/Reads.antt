-- ===== src/Hook/Object/Reads.antt =====
-- The relative instruction that stands at a hooked function, as the disassembler reads it.
use memwrapper.Base.{ℕ, ◌+◌, ◌<◌, ◌≡◌, refl, ap, ◌∙◌, true, false, some, arith, List, ◌∷◌, word_mod}
use memwrapper.Machine.{Bytes, World, slice}
use memwrapper.Machine.Run.{CanRead}
use memwrapper.Windows.{Windows, cpu}
use memwrapper.Detail.{get_relative_address, restore_absolute_address, jump_oplen, byteof}
use memwrapper.Detail.Addresses.{get_relative_address-lt, restore-get_relative_address}
use memwrapper.Detail.Bytes.{number, number-byteof}
use memwrapper.Hook.Disassembler.{
  Disassembler, disassemble, disassemble-returns, has, f_error, f_relative, f_imm32,
}
use memwrapper.Hook.Object.{is_foreign}

-- The displacement that stands behind an opcode.
pub operand_at :
    (g : Bytes) (p opcode r : ℕ)
    → r < word_mod
    → slice g p 5 ≡ opcode ∷ byteof 4 r
    → (g p ≡ opcode) × (number (slice g (p + 1) 4) ≡ r)
unfolding slice byteof
operand_at g p opcode r lt e = (cc e, ap number (cc e) ∙ number-byteof 4 r (omega (arith, lt)))

-- The disassembler reads a relative instruction of five bytes, with a displacement behind the
-- opcode.
abbrev pub Reads : Disassembler → (opcode : ℕ) → Type 0
Reads d opcode =
    (f : Bytes) (p : ℕ)
    → f p ≡ opcode
    → ((d f p).len ≡ 5)
      × ((d f p).imm32 ≡ number (slice f (p + 1) 4))
      × (has f_error (d f p) ≡ false)
      × (has f_relative (d f p) ≡ true)
      × (has f_imm32 (d f p) ≡ true)
      × ((d f p).extent ≡ 5)

-- A relative instruction of five bytes that leads to `target`.
abbrev pub jump_to : (opcode target at : ℕ) → List ℕ
jump_to opcode target at = opcode ∷ byteof 4 (get_relative_address target at jump_oplen)

module _ (win : Windows) (d : Disassembler) (opcode : ℕ) (reads : Reads d opcode)
    (target p : ℕ) where
  open win use {Kernel}

  -- Where the instruction leads, as `remove` computes it.
  pub destination_at :
      (f : Bytes)
      → target < word_mod
      → slice f p 5 ≡ jump_to opcode target p
      → (is_foreign win d (d f p) ≡ false)
        × (restore_absolute_address (d f p).imm32 p (d f p).len ≡ target)
  unfolding is_foreign
  destination_at f lt e =
      let (at, operand) =
        operand_at f p opcode (get_relative_address target p jump_oplen)
          (get_relative_address-lt target p jump_oplen) e in
      let (len, imm, whole, relative, imm32, _) = reads f p at in
      (
        rw (whole, relative, imm32) refl,
        rw (len, imm, operand) (restore-get_relative_address target p jump_oplen lt),
      )

  -- The engine returns where its five bytes may be read.
  pub disassemble_jump :
      (w : World Kernel)
      → slice w.bytes p 5 ≡ jump_to opcode target p
      → CanRead (cpu win) w.kernel p 5
      → disassemble win d p w ≡ some (d w.bytes p, w)
  disassemble_jump w e r =
      let (at, _) =
        operand_at w.bytes p opcode (get_relative_address target p jump_oplen)
          (get_relative_address-lt target p jump_oplen) e in
      let (_, _, _, _, _, extent) = reads w.bytes p at in
      disassemble-returns win d p w (λ i lt. r i (omega (arith, extent, lt)))
