-- ===== src/Hook/Object/Lifecycle.antt =====
-- What remove does to the hooked function, and in what state it leaves the hook.
use memwrapper.Base.{ℕ, ◌≡◌, ◌<◌, refl, ◌∙◌, true, some, arith, word_mod, ◌==◌, ==_iff}
use memwrapper.Machine.{World, slice, overlay}
use memwrapper.Machine.Returns
use memwrapper.Machine.Returns.{Returns, returns}
use memwrapper.Machine.Run.{CanRead}
use memwrapper.Windows.{Windows, WindowsLaws, cpu}
use memwrapper.Detail.{restore_absolute_address}
use memwrapper.Llmo.Unprotect.Scope.{Protected}
use memwrapper.Llmo.Operations.Effects.{copy_memory-overlay}
use memwrapper.Allocator
use memwrapper.Allocator.{BasicAllocator}
use memwrapper.Hook.Object.Reads.{Reads, jump_to, destination_at, disassemble_jump}
use memwrapper.Hook.Disassembler.{Disassembler}
use memwrapper.Hook.Object.{Memhook, install, unload_hook, remove}

module _ (win : Windows) (laws : WindowsLaws win) (d : Disassembler) where
  open win use {Kernel, committed}

  -- The hooked function may be written to, and the saved bytes and the trampoline are there.
  pub record Unloadable (saved : ℕ) (t : BasicAllocator) (h : Memhook) (w : World Kernel)
      : Type 0 where
    pub original : h.original_code ≡ some saved
    pub trampoline : h.trampoline_code ≡ some t
    pub commit : committed w.kernel h.hookee h.size ≡ true
    pub readable : CanRead (cpu win) w.kernel saved h.size

  -- The saved bytes are back and nothing else has changed; the hooked function has its protection
  -- again and the trampoline's page is released; and from there on neither `install` nor `remove`
  -- does anything.
  abbrev pub Unloaded :
      ℕ → BasicAllocator → Memhook → World Kernel → Memhook → World Kernel → Type 0
  Unloaded saved t h w h' u =
      (u.bytes ≡ overlay w.bytes h.hookee (slice w.bytes saved h.size))
      × ((storage : ℕ) (v : World Kernel) → install win d storage h' v ≡ some (h', v))
      × ((v : World Kernel) → remove win d h' v ≡ some (h', v))
      × (k : Kernel) × Protected win h.hookee h.size (win.protection w.kernel h.hookee) w.kernel k
      × (u.kernel ≡ (win.virtual_free t.code k).1)

  unload_hook-Unloaded :
      (saved : ℕ) (t : BasicAllocator) (h : Memhook) (w : World Kernel)
      → Unloadable saved t h w
      → Returns (Unloaded saved t h w) (unload_hook win d h w)
  unfolding unload_hook install remove Allocator.free
  unload_hook-Unloaded saved t h w can = rw can.original (
      Returns.bind (copy_memory-overlay win laws h.hookee saved h.size w can.commit can.readable)
        λ _ u (e, s).
          rw can.trampoline (returns (e, λ storage v. refl, λ v. refl, u.kernel, s, refl)))

  -- An installed hook whose jump to the trampoline still stands at the hooked function, where it
  -- may be read.
  pub record Standing (opcode : ℕ) (t : BasicAllocator) (h : Memhook) (w : World Kernel)
      : Type 0 where
    pub installed : h.flags.installed ≡ true
    pub stands : slice w.bytes h.hookee 5 ≡ jump_to opcode (Allocator.begin t) h.hookee
    pub can_read : CanRead (cpu win) w.kernel h.hookee 5
    pub in_words : Allocator.begin t < word_mod
    pub room : 0 < t.size

  -- If the jump to the trampoline still stands at the hooked function and may be read there,
  -- `remove` returns, puts the saved bytes back and changes no other byte; the hooked function has
  -- its protection again, and the trampoline's page is released. The hook it leaves is dead:
  -- `install` does nothing on it, so it cannot be installed a second time.
  pub remove-Unloaded :
      (opcode saved : ℕ) (t : BasicAllocator) (h : Memhook) (w : World Kernel)
      → Reads d opcode
      → Unloadable saved t h w
      → Standing opcode t h w
      → Returns (Unloaded saved t h w) (remove win d h w)
  unfolding remove
  remove-Unloaded opcode saved t h w reads can s =
      let (own, leads) =
        destination_at win d opcode reads (Allocator.begin t) h.hookee w.bytes s.in_words
          s.stands in
      let same : (restore_absolute_address (d w.bytes h.hookee).imm32 h.hookee
              (d w.bytes h.hookee).len
            == Allocator.get 0 t)
          ≡ true =
        (==_iff _ _).1 (leads ∙ ground (arith, s.room)) in
      simp
        (
          s.installed,
          disassemble_jump win d opcode reads (Allocator.begin t) h.hookee w s.stands s.can_read,
          own,
          can.trampoline,
          same,
        )
        (unload_hook-Unloaded saved t h w can)
