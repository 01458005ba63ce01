-- ===== src/Hook/Relocation/Short.antt =====
-- generate_trampoline_instructions on a short jump: what the loop counts.
use Prim.Native.Nat.{bit_and}
use memwrapper.Base.{ℕ, ◌+◌, ◌<◌, ◌≡◌, ap, false, some, ◌++◌, arith, ◌==◌, word_mod}
use memwrapper.Machine.{World}
use memwrapper.Machine.Run.{CanRead}
use memwrapper.Windows.{Windows, cpu}
use memwrapper.Detail.{get_relative_address, restore_absolute_address, jump_oplen, byteof}
use memwrapper.Detail.Addresses.{restore-get_relative_address}
use memwrapper.Allocator.{BasicAllocator, now}
use memwrapper.Allocator.Writes.{advance}
use memwrapper.Allocator.Appends.{
  Appends-and_then, written_at, HasRoom, HasRoom-le, HasRoom-advance, db_bytes-Appends,
}
use memwrapper.Asm.Appends.{jmp-Appends_at}
use memwrapper.Hook.Disassembler.{
  Hde32s, Disassembler, disassemble, disassemble-returns, has, f_error,
}
use memwrapper.Hook.Relocation.{
  structure, is_jmp, relocate, emit, generate, jmp_relative, jmp_destination,
}

relocate-short :
    (p cursor : ℕ) (hs : Hde32s)
    → hs.opcode ≡ 0xeb
    → relocate p cursor hs
      ≡ structure (jmp_relative (get_relative_address (jmp_destination p hs) cursor jump_oplen))
unfolding relocate is_jmp
relocate-short p cursor hs e = rw (ap (λ o. o == 0xe8) e, ap (λ o. bit_and o 0xfd == 0xe9) e)

module _ (win : Windows) (d : Disassembler) where
  open win use {Kernel}

  -- A short jump of two bytes, which may be read, at a hooked function of five is rewritten to five
  -- bytes, where there is room, so the loop ends behind it: what follows is a jump to `p + 2`, if
  -- that is in the address space, and so into the five bytes that the hook writes over.
  pub generate-short :
      (p : ℕ) (a : BasicAllocator) (w : World Kernel)
      → (d w.bytes p).opcode ≡ 0xeb
      → (d w.bytes p).len ≡ 2
      → has f_error (d w.bytes p) ≡ false
      → CanRead (cpu win) w.kernel p (d w.bytes p).extent
      → p + 2 < word_mod
      → HasRoom win w.kernel a 10
      → (operand : ℕ) × (back : ℕ) × (generate win d 6 5 p 0 a w
          ≡ some (advance a 10, written_at w a (jmp_relative operand ++ jmp_relative back)))
        × (restore_absolute_address back (now a + 5) jump_oplen ≡ p + 2)
  unfolding generate byteof emit
  generate-short p a w op len ok r lt h = (
    get_relative_address (jmp_destination p (d w.bytes p)) (now a) jump_oplen,
    get_relative_address (p + 2) (now a + 5) jump_oplen,
    rw (read, ok, relocate-short p (now a) (d w.bytes p) op, len)
        (Appends-and_then (jmp_relative _) (jmp_relative _) a w (generate win d 5 5 (p + 2) 5)
          (db_bytes-Appends win (jmp_relative _) a w (HasRoom-le win a 5 10 (omega arith) h))
          (jmp-Appends_at win (advance a 5) _ (p + 2) (now a + 5) (omega arith)
            (HasRoom-advance win a 5 5 h))),
    restore-get_relative_address (p + 2) (now a + 5) jump_oplen lt,
  )
    where
      read : disassemble win d p w ≡ some (d w.bytes p, w)
      read = disassemble-returns win d p w r
