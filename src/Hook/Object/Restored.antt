-- ===== src/Hook/Object/Restored.antt =====
-- What `remove` does after an installation with nothing done in between.
use memwrapper.Base.{ℕ, ◌-◌, ◌≡◌, refl, sym, ap, ◌∙◌, false, some, arith, List, replicate, within}
use memwrapper.Machine.{Bytes, World, overlay}
use memwrapper.Machine.Overlay.{slice_parts, overlay-slice}
use memwrapper.Machine.Returns
use memwrapper.Machine.Returns.{Returns}
use memwrapper.Windows.{Windows, WindowsLaws, cpu}
use memwrapper.Machine.Run.{CanRead}
use memwrapper.Detail.{byteof}
use memwrapper.Allocator.{BasicAllocator}
use memwrapper.Allocator.Fresh.{page_in_space}
use memwrapper.Llmo.Unprotect.Scope.{Same, Same-trans, Protected-Same}
use memwrapper.Hook.Disassembler.{Disassembler}
use memwrapper.Hook.Object.{Memhook, install, remove, jump_size, nop_opcode}
use memwrapper.Hook.Object.Lifecycle.{Unloadable, Standing, remove-Unloaded}
use memwrapper.Hook.Object.Patched.{redirected_bytes}
use memwrapper.Hook.Object.Saved.{Installable, cleared}
use memwrapper.Hook.Object.Access.{Accessible, Accessible-Same, Released}
use memwrapper.Hook.Object.Placed.{Placed}
use memwrapper.Hook.Object.Installed.{installed_hook}
use memwrapper.Hook.Object.Reads.{Reads, jump_to}

module _ (win : Windows) (laws : WindowsLaws win) (d : Disassembler) (opcode : ℕ)
    (reads : Reads d opcode) (storage code : ℕ) (h : Memhook) (w : World win.Kernel)
    (can : Installable win storage code h w) where
  open win use {Kernel}

  -- Every byte is as in `env` but for the two new regions, the object is inert, and of the kernel of
  -- `env` only the trampoline's page has gone.
  abbrev pub Restored : World Kernel → Memhook → World Kernel → Type 0
  Restored env h' v =
      ((a : ℕ)
        → within storage h.size a ≡ false
        → within code 4096 a ≡ false
        → v.bytes a ≡ env.bytes a)
      × ((storage' : ℕ) (x : World Kernel) → install win d storage' h' x ≡ some (h', x))
      × ((x : World Kernel) → remove win d h' x ≡ some (h', x))
      × Released win code env.kernel v.kernel

  -- What `install` leaves lets `remove` unload the hook.
  installed-Unloadable :
      (t : BasicAllocator) (u : World Kernel)
      → Accessible win storage code h u.kernel
      → Unloadable win laws d storage t (installed_hook storage h t) u
  installed-Unloadable t u a = record {
    original = refl;
    trampoline = refl;
    commit = a.target.commit;
    readable = a.saved_read;
  }

  module _ (t : BasicAllocator) (u : World Kernel) (c : t.code ≡ code) (z : t.size ≡ 4096)
      (trampoline : List ℕ) (env : World Kernel)
      (m : Placed storage code h trampoline
        (redirected_bytes opcode code h.hookee h.size)
        env.bytes
        u.bytes) where
    installed-Standing :
        CanRead (cpu win) u.kernel h.hookee 5
        → Standing win laws d opcode t (installed_hook storage h t) u
    unfolding byteof
    installed-Standing r = record {
      installed = refl;
      stands =
          (slice_parts u.bytes h.hookee (jump_to opcode code h.hookee)
            (replicate (h.size - jump_size) nop_opcode) m.patched).0
          ∙ ap (λ p. jump_to opcode p h.hookee) (sym c);
      can_read = r;
      in_words = omega (arith, c, page_in_space win laws (cleared storage h.size w) code can.new);
      room = omega (arith, z);
    }

    pub remove-Restored :
        Accessible win storage code h env.kernel
        → Same win env.kernel u.kernel
        → Returns (Restored env) (remove win d (installed_hook storage h t) u)
    remove-Restored access s =
        let open_now : Accessible win storage code h u.kernel =
          Accessible-Same win storage code h access s in
        Returns.mono
          (remove-Unloaded win laws d opcode storage t (installed_hook storage h t) u reads
            (installed-Unloadable t u open_now)
            (installed-Standing (λ i lt. open_now.target_read i (omega (arith, lt, can.enough)))))
          λ x v (bytes, inert, inert', k, kept, freed). (
            λ a out out'. ground (
              arith,
              ap (λ (g : Bytes). g a) bytes,
              ap (λ xs. overlay u.bytes h.hookee xs a) m.saved,
              overlay-slice u.bytes env.bytes h.hookee h.size a,
              m.elsewhere a,
            ),
            inert,
            inert',
            (
              k,
              Same-trans win s (Protected-Same win h.hookee h.size open_now.target.uniform kept),
              freed ∙ ap (λ p. (win.virtual_free p k).1) c,
            ),
          )
