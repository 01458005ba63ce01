-- ===== src/Tests/Chained.antt =====
-- A hook whose trampoline is at 0x5000, and a later hook's jump to 0x7000 at the hooked function.
use memwrapper.Base.{◌+◌, refl, true, some, arith}
use memwrapper.Machine.{World, overlay}
use memwrapper.Machine.Returns.{Returns}
use memwrapper.Windows.Simulation.{simulation, simulation-laws, Pages}
use memwrapper.Detail.{byteof}
use memwrapper.Machine.Overlay.{slice-overlay}
use memwrapper.Hook.Object.{Memhook, no_flags, remove, hooker_offset, jump_opcode}
use memwrapper.Hook.Object.Chained.{Chained, Off, on_bytes, remove-Off}
use memwrapper.Tests.Allocator.{writable_world}
use memwrapper.Hook.Object.Cycle.{reads_jump}
use memwrapper.Hook.Object.Reads.{jump_to}
use memwrapper.Tests.Asm.{fresh}
use memwrapper.Tests.Hook.{small, small-DisassemblerLaws}

abbrev below : Memhook
below = record {
  hookee = 0x401010;
  hooker = 0x402000;
  size = 6;
  original_code = some 0x1010;
  trampoline_code = some fresh;
  flags = record no_flags { installed = true; executable = true };
  call_abs = 0;
  return_address = 0x3000;
}

abbrev with_head : World Pages
with_head = record writable_world {
  bytes =
      overlay (overlay writable_world.bytes (0x5000 + hooker_offset) (on_bytes below 0x5000))
        0x401010 (jump_to jump_opcode 0x7000 0x401010);
}

below-Chained :
    Chained simulation simulation-laws small jump_opcode 0x7000 0x1010 fresh below with_head
unfolding byteof
below-Chained = record {
  installed = refl;
  not_broken = refl;
  executable = refl;
  original = refl;
  trampoline = refl;
  stands = slice-overlay _ 0x401010 (jump_to jump_opcode 0x7000 0x401010);
  can_read = λ i h. refl;
  other_word = omega arith;
  not_own = refl;
  not_call = refl;
  room = record {
    valid = record { in_region = omega arith; word = omega arith };
    room = omega arith;
    writable = λ i h. refl;
  };
  jump_open = record { commit = refl; uniform = λ a h. refl };
}

remove-Off_example :
    Returns
      (Off simulation simulation-laws small fresh below with_head)
      (remove simulation small below with_head)
remove-Off_example =
    remove-Off simulation simulation-laws small jump_opcode 0x7000 0x1010 fresh below with_head
      (reads_jump small small-DisassemblerLaws) below-Chained
