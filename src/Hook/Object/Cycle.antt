-- ===== src/Hook/Object/Cycle.antt =====
-- A hook is installed and removed again.
use memwrapper.Base.{ℕ, ◌≡◌, List}
use memwrapper.Machine.{World, ◌>>=◌}
use memwrapper.Machine.Returns
use memwrapper.Machine.Returns.{Returns}
use memwrapper.Windows.{Windows, WindowsLaws}
use memwrapper.Hook.Disassembler.{Disassembler, DisassemblerLaws}
use memwrapper.Hook.Object.Written.{Relocates}
use memwrapper.Hook.Object.{Memhook, install, remove, call_opcode, jump_opcode}
use memwrapper.Hook.Object.Saved.{Installable, cleared}
use memwrapper.Allocator.Fresh.{grown}
use memwrapper.Hook.Object.Access.{installed-Accessible}
use memwrapper.Hook.Object.Installed.{IsNew, install-InMemory}
use memwrapper.Hook.Object.Redirected.{called, call_target, called-Installable, install-Redirected}
use memwrapper.Hook.Object.Restored.{Restored, remove-Restored}
use memwrapper.Hook.Object.Reads.{Reads}

module _ (d : Disassembler) (dis : DisassemblerLaws d) where
  pub reads_jump : Reads d jump_opcode
  reads_jump f p e =
      let (len, imm, whole, relative, imm32, _, extent) = dis.jump f p e in
      (len, imm, whole, relative, imm32, extent)

  pub reads_call : Reads d call_opcode
  reads_call f p e =
      let (len, imm, whole, relative, imm32, _, extent) = dis.call f p e in
      (len, imm, whole, relative, imm32, extent)

-- The world with the page of the trampoline.
abbrev pub installed_world :
    (win : Windows) (storage : ℕ) → Memhook → World win.Kernel → World win.Kernel
installed_world win storage h w = record {
  bytes = w.bytes;
  kernel = grown win (cleared storage h.size w);
}

module _ (win : Windows) (laws : WindowsLaws win) (d : Disassembler) (dis : DisassemblerLaws d)
    (storage code : ℕ) (h : Memhook) (w : World win.Kernel) (new : IsNew h)
    (can : Installable win storage code h w) where
  open win use {Kernel}

  -- A new hook on instructions of which the first is no call, rewritten from the covered bytes
  -- alone, that is installed and then removed, with nothing done in between, leaves each byte as it
  -- was, but for the array of saved bytes and the page of the trampoline, which were new; and the
  -- object it leaves is inert.
  pub install-remove :
      (bs : List ℕ)
      → Relocates d w.bytes code h bs
      → Returns
          (Restored win laws d jump_opcode
            (reads_jump d dis)
            storage
            code
            h
            w
            can
            (installed_world win storage h w))
          ((install win d storage h >>= remove win d) w)
  install-remove bs r =
      Returns.bind (install-InMemory win laws d dis storage code h w new can bs r)
        λ h' u (t, c, z, e, m, s). rw e (
          remove-Restored win laws d jump_opcode (reads_jump d dis) storage code h w can t u c z _
            (installed_world win storage h w) m (installed-Accessible win laws storage code h w can)
            s)

  -- A new hook on a call that is installed and then removed, with nothing done in between, leaves
  -- each byte as it was, but for the array of saved bytes and the page of the trampoline, which
  -- were new; and the object it leaves is inert.
  pub install-remove_call :
      (call : w.bytes h.hookee ≡ call_opcode)
      → Returns
          (Restored win laws d call_opcode
            (reads_call d dis)
            storage
            code
            (called h (call_target w.bytes h.hookee))
            w
            (called-Installable win laws d dis storage code h w new can call)
            (installed_world win storage h w))
          ((install win d storage h >>= remove win d) w)
  install-remove_call call =
      Returns.bind (install-Redirected win laws d dis storage code h w new can call)
        λ h' u (t, c, z, e, _, m, s). rw e (
          remove-Restored win laws d call_opcode (reads_call d dis) storage code
            (called h (call_target w.bytes h.hookee)) w
            (called-Installable win laws d dis storage code h w new can call) t u c z _
            (installed_world win storage h w)
            (record {
              trampoline = m.trampoline;
              patched = m.patched;
              saved = m.saved;
              elsewhere = m.elsewhere;
            })
            (installed-Accessible win laws storage code (called h (call_target w.bytes h.hookee)) w
              (called-Installable win laws d dis storage code h w new can call))
            s)
