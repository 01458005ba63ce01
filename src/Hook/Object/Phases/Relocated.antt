-- ===== src/Hook/Object/Phases/Relocated.antt =====
-- The jump that stands at a hooked function, when another hook relocates it.
use memwrapper.Base.{ℕ, ◌+◌, ◌<◌, ◌≡◌, refl, sym, ap, List, ◌++◌, arith, word_mod, length}
use mathlib.Core.Path.{subst}
use memwrapper.Machine.{Bytes, slice}
use memwrapper.Detail.{get_relative_address, jump_oplen, byteof}
use memwrapper.Detail.Addresses.{get_relative_address-lt}
use memwrapper.Detail.Bytes.{number}
use memwrapper.Asm.Encoding.{jmp_bytes}
use memwrapper.Hook.Disassembler.{Disassembler, DisassemblerLaws}
use memwrapper.Hook.Relocation.{relocate, is_jmp, jmp_destination}
use memwrapper.Hook.Relocation.Rewritten.{Rewritten, closed, next, piece_bytes, rewritten_at}
use memwrapper.Hook.Object.{Memhook, jump_opcode, original_offset}
use memwrapper.Hook.Object.Leads.{jump_target}
use memwrapper.Hook.Object.Reads.{jump_to, operand_at}
use memwrapper.Hook.Object.Written.{Relocates}

-- The jump to `target` at the head of the other's code, and the one to what is behind it.
abbrev pub relocated_bytes : (target hookee cursor : ℕ) → List ℕ
relocated_bytes target hookee cursor =
    jmp_bytes (get_relative_address target cursor jump_oplen)
    ++ jmp_bytes (get_relative_address (hookee + 5) (cursor + 5) jump_oplen)

module _ (d : Disassembler) (dis : DisassemblerLaws d) (f : Bytes) (code target : ℕ) (b : Memhook)
    (lt : target < word_mod)
    (stands : slice f b.hookee 5 ≡ jump_to jump_opcode target b.hookee) where
  abbrev cursor : ℕ
  cursor = code + original_offset

  standing_operand :
      (f b.hookee ≡ jump_opcode)
      × (number (slice f (b.hookee + 1) 4) ≡ get_relative_address target b.hookee jump_oplen)
  standing_operand =
      operand_at f b.hookee jump_opcode _ (get_relative_address-lt target b.hookee jump_oplen)
        stands

  relocated :
      rewritten_at d f b.hookee cursor ≡ jmp_bytes (get_relative_address target cursor jump_oplen)
  unfolding relocate is_jmp jmp_destination piece_bytes
  relocated =
      let (len, imm, _, _, _, op, _) = dis.jump f b.hookee standing_operand.0 in
      rw (op, len, imm, standing_operand.1)
        (ap (λ t. jmp_bytes (get_relative_address t cursor jump_oplen))
          (jump_target target b.hookee lt))

  -- One piece of five bytes, and the closing jump.
  jump-Rewritten : Rewritten d f 5 b.hookee 0 cursor 5 (relocated_bytes target b.hookee cursor)
  unfolding byteof
  jump-Rewritten =
      let (len, _, good, _, _, _, _) = dis.jump f b.hookee standing_operand.0 in
      subst
        (λ bs.
          Rewritten d f 5 b.hookee 0 cursor 5
            (bs ++ jmp_bytes (get_relative_address (b.hookee + 5) (cursor + 5) jump_oplen)))
        relocated
        (next {step = 0} {cursor = cursor} {m = 0} {rest = back} (omega arith) good
          (subst
            (λ n. Rewritten d f 5 (b.hookee + n) (0 + length piece) (cursor + length piece) 0 back)
            (sym len)
            (subst
              (λ bs. Rewritten d f 5 (b.hookee + 5) (0 + length bs) (cursor + length bs) 0 back)
              (sym relocated) (closed (omega arith) refl)))
          (omega (arith, len)))
    where
      piece : List ℕ
      piece = rewritten_at d f b.hookee cursor

      back : List ℕ
      back = jmp_bytes (get_relative_address (b.hookee + 5) (cursor + 5) jump_oplen)

  -- A hook that covers just the jump has it relocated.
  pub jump-Relocates : b.size ≡ 5 → Relocates d f code b (relocated_bytes target b.hookee cursor)
  jump-Relocates five =
      let (_, _, _, _, _, op, _) = dis.jump f b.hookee standing_operand.0 in
      record {
        no_call = rw op refl;
        span = 5;
        covered = omega (arith, five);
        rewritten = rw five jump-Rewritten;
      }
