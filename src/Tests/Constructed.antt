-- ===== src/Tests/Constructed.antt =====
-- A hook is constructed over three instructions of two bytes.
use memwrapper.Base.{ℕ, ◌+◌, ◌≤◌, ◌<◌, ◌≡◌, refl, arith, List, ◌%◌, ◌==◌, ◌||◌, false, ◌∙◌}
use memwrapper.Windows.Simulation.{simulation}
use memwrapper.Hook.Disassembler.{Hde32s, has}
use memwrapper.Hook.Relocation.Copies.{IsPlain, relocate-IsPlain}
use memwrapper.Hook.Relocation.{is_jmp, is_jcc}
use memwrapper.Base.Nibbles.{near_or_short, short_jcc}
use memwrapper.Llmo.Operations.{is_executable}
use memwrapper.Hook.Object.{construct, measure, jump_size}
use memwrapper.Hook.Object.Constructed.{KeepLengths, construct-IsNew}
use memwrapper.Hook.Object.Installed.{IsNew}
use memwrapper.Hook.Object.Written.{Relocates}
use memwrapper.Tests.Allocator.{writable_world}
use memwrapper.Tests.Cycle.{new_hook, page}
use memwrapper.Tests.Hook.{small, small-DisassemblerLaws}

-- An instruction of two bytes with an opcode below 0x20.
abbrev two_bytes : ℕ → Hde32s
two_bytes opcode = record {
  len = 2;
  opcode = opcode;
  opcode2 = 0;
  imm32 = 0;
  flags = 0;
  extent = 2;
}

two_bytes-IsPlain : (opcode : ℕ) → opcode < 0x20 → IsPlain (two_bytes opcode)
unfolding has is_jmp is_jcc
two_bytes-IsPlain opcode lt = record {
  accepted = refl;
  no_call = ground arith;
  no_jmp = near_or_short opcode (omega arith) ∙ ground arith;
  no_jcc = rw (short_jcc opcode (omega arith)) (ground arith);
}

new_hook-KeepLengths : KeepLengths small writable_world.bytes 0x401010 6
new_hook-KeepLengths n cursor lt l =
    let opcode : ℕ = (0x401010 + n) % 256 in
    let below : opcode < 0x20 = omega arith in
    let no_branch : ((opcode == 0xe9) || (opcode == 0xe8)) ≡ false = ground arith in
    rw
      (
        no_branch,
        relocate-IsPlain (0x401010 + n) cursor (two_bytes opcode) (two_bytes-IsPlain opcode below),
      )
      refl

construct-IsNew_example :
    IsNew new_hook
    × (new_hook.hookee ≡ 0x401010)
    × (jump_size ≤ 6)
    × (6 ≤ 19)
    × (bs : List ℕ) × Relocates small writable_world.bytes page new_hook bs
unfolding construct measure has is_executable memwrapper.Hook.Disassembler.disassemble
    memwrapper.Machine.read_bytes memwrapper.Machine.load
construct-IsNew_example =
    construct-IsNew simulation small small-DisassemblerLaws 0x401010 0x402000 0x403000 page
      writable_world writable_world new_hook refl refl refl refl new_hook-KeepLengths
