-- ===== src/Hook/Object/Enters.antt =====
-- The head that `install` writes, run by the processor on entry of the hooked function.
use memwrapper.Base.{ℕ, ◌<◌, ◌≡◌, refl, ◌-◌, List, some, arith, All, get_or-lt}
use memwrapper.Machine.{Bytes, World, overlay}
use memwrapper.Machine.Overlay.{overlay_at, slice-overlay}
use memwrapper.Machine.Returns.{Returns, of_eq}
use memwrapper.Windows.{Windows}
use memwrapper.Detail.{byteof}
use memwrapper.Allocator.{BasicAllocator, now}
use memwrapper.Allocator.Appends.{HasRoom}
use memwrapper.Allocator.Writes.{advance}
use memwrapper.Asm.{Registers}
use memwrapper.Asm.Processor.{Processor, steps}
use memwrapper.Hook.Disassembler.{Disassembler}
use memwrapper.Hook.Object.{Memhook, write_head}
use memwrapper.Hook.Object.Head.{head_bytes, head_parts, write_head-Appends}
use memwrapper.Hook.Object.Entry.{IsEntry, Entered}
use memwrapper.Hook.Object.Leads.{jump-Entered}

-- The processor with eip at the cursor.
abbrev pub at_cursor : BasicAllocator → (Registers → ℕ) → Bytes → Processor
at_cursor a registers f = record { registers = registers; eip = now a; bytes = f }

head_bytes-lt :
    (return_address hooker cursor : ℕ)
    → All (λ b. b < 256) (head_bytes return_address hooker cursor)
unfolding byteof
head_bytes-lt return_address hooker cursor = omega arith

overlay-lt :
    (f : Bytes) (p : ℕ) (bs : List ℕ) (a : ℕ)
    → f a < 256
    → All (λ b. b < 256) bs
    → overlay f p bs a < 256
overlay-lt f p bs a h hs =
    ground (arith, overlay_at f p bs a, h, get_or-lt 256 bs (a - p) (omega arith) hs)

module _ (win : Windows) (d : Disassembler) where
  open win use {Kernel}

  -- With room for 16 bytes, `write_head` returns with the cursor behind them. If the processor
  -- comes to where the cursor was, in any registers for which nothing wraps and the stack, the
  -- saved return address and the head do not meet, five instructions later the hooker is entered
  -- with the same registers; the word at the stack's top, the return address, is saved, and no
  -- other memory has changed but the word below the stack's top.
  pub write_head-Entered :
      (h : Memhook) (a : BasicAllocator) (registers : Registers → ℕ) (w : World Kernel)
      → HasRoom win w.kernel a 16
      → IsEntry h.return_address h.hooker (at_cursor a registers w.bytes)
      → Returns
          (λ a' v.
            (a' ≡ advance a 16)
            × ((s' : Processor) × (steps 5 (at_cursor a registers v.bytes) ≡ some s')
                × Entered h.return_address h.hooker (at_cursor a registers v.bytes) s'))
          (write_head win d h a w)
  unfolding byteof
  write_head-Entered h a registers w room e =
      let bs = head_bytes h.return_address h.hooker (now a) in
      let parts =
        head_parts (overlay w.bytes (now a) bs) h.return_address h.hooker (now a)
          (slice-overlay w.bytes (now a) bs) in
      of_eq (write_head-Appends win d h a w room) (
        refl,
        jump-Entered h.return_address h.hooker (at_cursor a registers (overlay w.bytes (now a) bs))
            (record {
              code_word = e.code_word;
              stack = e.stack;
              stack_word = e.stack_word;
              eax_word = e.eax_word;
              target_word = e.target_word;
              context_word = e.context_word;
              stack_bytes = λ p i.
                  overlay-lt w.bytes (now a) bs p (e.stack_bytes p i)
                    (head_bytes-lt h.return_address h.hooker (now a));
              stack_apart = e.stack_apart;
              context_apart = e.context_apart;
              context_stack = e.context_stack;
            })
            parts.0 parts.1,
      )
