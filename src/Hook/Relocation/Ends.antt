-- ===== src/Hook/Relocation/Ends.antt =====
-- generate_trampoline_instructions on any instructions: how it ends.
use memwrapper.Base.{ℕ, suc, ◌+◌, ◌*◌, ◌≤◌, ◌≡◌, refl, List, some, arith, Apart, length}
use memwrapper.Machine.{World}
use memwrapper.Machine.Run.{CanRead}
use memwrapper.Windows.{Windows, cpu}
use memwrapper.Allocator.{BasicAllocator, now}
use memwrapper.Allocator.Writes.{advance}
use memwrapper.Allocator.Appends.{written_at, HasRoom, HasRoom-le}
use memwrapper.Hook.Disassembler.{Disassembler, DisassemblerLaws}
use memwrapper.Hook.Relocation.{generate}
use memwrapper.Hook.Relocation.Rewritten.{Rewritten, rewritten_exists, length-Rewritten}
use memwrapper.Hook.Relocation.Writes.{generate-Appends}

module _ (win : Windows) (d : Disassembler) (laws : DisassemblerLaws d) where
  open win use {Kernel}

  -- Whatever the instructions at `p` are, rewriting them for `size` bytes returns: the loop, which
  -- `suc size` rounds of fuel do not cut short, writes at the cursor what the instructions become,
  -- `size + 19` bytes at most, and changes nothing else, if there is room for them and if 15 bytes
  -- for each of `size` instructions can be read, and the 18 more that the engine may read of one
  -- that it refuses, and if all these lie apart from the region, with 32 behind them.
  pub generate-Ends :
      (size p : ℕ) (a : BasicAllocator) (w : World Kernel)
      → HasRoom win w.kernel a (size + 19)
      → CanRead (cpu win) w.kernel p (15 * size + 18)
      → Apart p (15 * size + 49) a.code a.size
      → (span : ℕ) × (bs : List ℕ) × Rewritten d w.bytes size p 0 (now a) span bs
        × (span ≤ 15 * size + 17)
        × (length bs ≤ size + 19)
        × (generate win d (suc size) size p 0 a w ≡ some (advance a (length bs), written_at w a bs))
  generate-Ends size p a w h r apart =
      let (span, bs, rewritten, le) = rewritten_exists d w.bytes laws size p (now a) in
      let bound = length-Rewritten d w.bytes laws size p (now a) span bs rewritten in
      (
        span,
        bs,
        rewritten,
        le,
        bound,
        generate-Appends win d laws w.bytes (suc size) size p 0 (now a) span bs a w rewritten
            (omega arith) (omega arith) refl (λ i lt. refl)
            (HasRoom-le win a (length bs) (size + 19) bound h) (λ i lt. r i (omega (arith, le)))
            (omega (arith, apart, le)),
      )
