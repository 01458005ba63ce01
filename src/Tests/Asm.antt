-- ===== src/Tests/Asm.antt =====
-- The emitters of instructions in a region of 4096 bytes.
use memwrapper.Base.{refl, inr, arith}
use memwrapper.Machine.Returns.{Returns}
use memwrapper.Windows.Simulation.{simulation}
use memwrapper.Allocator.{BasicAllocator}
use memwrapper.Allocator.Appends.{HasRoom}
use memwrapper.Asm.{eax, esp, mov_load}
use memwrapper.Asm.Decoder
use memwrapper.Asm.Decoder.{sign_extend}
use memwrapper.Asm.Emits.{Emitted, mov_load-Emitted}
use memwrapper.Tests.Allocator.{writable_world}

abbrev pub fresh : BasicAllocator
fresh = record { code = 0x5000; size = 4096; offset = 0 }

fresh-HasRoom : HasRoom simulation writable_world.kernel fresh 6
fresh-HasRoom = record {
  valid = record { in_region = omega arith; word = omega arith };
  room = omega arith;
  writable = λ i h. refl;
}

mov_load-Emitted_example :
    Returns
      (Emitted fresh writable_world (Decoder.load eax esp (sign_extend 4)))
      (mov_load simulation eax esp 4 fresh writable_world)
mov_load-Emitted_example =
    mov_load-Emitted simulation eax esp 4 fresh writable_world fresh-HasRoom
      (inr (λ e. ground (arith, e)))
