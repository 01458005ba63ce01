-- ===== src/Tests/Relocation.antt =====
-- The rewriting loop in a region of 4096 bytes at 0x5000.
use memwrapper.Base.{ℕ, ◌≤◌, ◌≡◌, refl, some, List, ◌++◌, arith, length}
use memwrapper.Windows.Simulation.{simulation}
use memwrapper.Detail.{restore_absolute_address, jump_oplen}
use memwrapper.Allocator.Writes.{advance}
use memwrapper.Allocator.Appends.{HasRoom, written_at}
use memwrapper.Hook.Disassembler.{has}
use memwrapper.Hook.Relocation.{generate, jmp_relative}
use memwrapper.Hook.Relocation.Rewritten.{Rewritten}
use memwrapper.Hook.Relocation.Ends.{generate-Ends}
use memwrapper.Hook.Relocation.Short.{generate-short}
use memwrapper.Tests.Allocator.{writable_world}
use memwrapper.Tests.Asm.{fresh}
use memwrapper.Tests.Hook.{small, small-DisassemblerLaws}

fresh_room : (n : ℕ) → n ≤ 100 → HasRoom simulation writable_world.kernel fresh n
fresh_room n le = record {
  valid = record { in_region = omega arith; word = omega arith };
  room = omega arith;
  writable = λ i h. refl;
}

generate-Ends_example :
    (span : ℕ) × (bs : List ℕ) × Rewritten small writable_world.bytes 6 0x401068 0 0x5000 span bs
    × (span ≤ 107)
    × (length bs ≤ 25)
    × (generate simulation small 7 6 0x401068 0 fresh writable_world
        ≡ some (advance fresh (length bs), written_at writable_world fresh bs))
generate-Ends_example =
    generate-Ends simulation small small-DisassemblerLaws 6 0x401068 fresh writable_world
      (fresh_room 25 (omega arith)) (λ i h. refl) (omega arith)

-- The byte at 0x4010eb is 0xeb.
generate-short_example :
    (operand : ℕ) × (back : ℕ) × (generate simulation small 6 5 0x4010eb 0 fresh writable_world
      ≡ some (
        advance fresh 10,
        written_at writable_world fresh (jmp_relative operand ++ jmp_relative back),
      ))
    × (restore_absolute_address back 0x5005 jump_oplen ≡ 0x4010ed)
unfolding has
generate-short_example =
    generate-short simulation small 0x4010eb fresh writable_world refl refl refl (λ i h. refl)
      (omega arith) (fresh_room 10 (omega arith))
