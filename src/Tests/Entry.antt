-- ===== src/Tests/Entry.antt =====
-- The processor enters a hooked function whose trampoline's head was written at 0x5000.
use memwrapper.Base.{ℕ, ◌≡◌, refl, some, arith, if◌then◌else◌}
use memwrapper.Machine.Returns.{Returns}
use memwrapper.Windows.Simulation.{simulation}
use memwrapper.Allocator.Writes.{advance}
use memwrapper.Asm.{Registers, is_esp}
use memwrapper.Asm.Processor.{Processor, steps}
use memwrapper.Hook.Object.{write_head}
use memwrapper.Hook.Object.Entry.{Entered}
use memwrapper.Hook.Object.Enters.{at_cursor, write_head-Entered}
use memwrapper.Tests.Allocator.{writable_world}
use memwrapper.Tests.Asm.{fresh}
use memwrapper.Tests.Cycle.{new_hook}
use memwrapper.Tests.Hook.{small}

abbrev pub registers : Registers → ℕ
registers r = if is_esp r then 0x9000 else 0x1234

write_head-Entered_example :
    Returns
      (λ a' v.
        (a' ≡ advance fresh 16)
        × ((s' : Processor) × (steps 5 (at_cursor fresh registers v.bytes) ≡ some s')
            × Entered 0x403000 0x402000 (at_cursor fresh registers v.bytes) s'))
      (write_head simulation small new_hook fresh writable_world)
write_head-Entered_example =
    write_head-Entered simulation small new_hook fresh registers writable_world
      (record {
        valid = record { in_region = omega arith; word = omega arith };
        room = omega arith;
        writable = λ i h. refl;
      })
      (record {
        code_word = omega arith;
        stack = omega arith;
        stack_word = omega arith;
        eax_word = omega arith;
        target_word = omega arith;
        context_word = omega arith;
        stack_bytes = λ a i. omega arith;
        stack_apart = omega arith;
        context_apart = omega arith;
        context_stack = omega arith;
      })
