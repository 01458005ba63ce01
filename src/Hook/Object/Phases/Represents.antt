-- ===== src/Hook/Object/Phases/Represents.antt =====
-- What each phase says of the object and the world, and that each event keeps it so.
use memwrapper.Base.{
  ℕ, ◌+◌, ◌-◌, ◌≡◌, refl, sym, ◌∙◌, Bool, true, some, List, [], ◌∷◌, arith, Apart, length,
  replicate,
}
use mathlib.Core.Path.{subst, ap₂}
use memwrapper.Machine.{Bytes, World, slice}
use memwrapper.Machine.Overlay.{slice_parts}
use memwrapper.Machine.Returns.{Returns}
use memwrapper.Windows.{Windows, WindowsLaws}
use memwrapper.Detail.{byteof}
use memwrapper.Llmo.Unprotect.Scope.{Same}
use memwrapper.Allocator.{BasicAllocator}
use memwrapper.Allocator.Fresh.{grown, page-Apart}
use memwrapper.Hook.Disassembler.{Disassembler}
use memwrapper.Hook.Object.{Memhook, remove, hooker_offset, jump_size, nop_opcode}
use memwrapper.Hook.Object.Chained.{on_bytes}
use memwrapper.Hook.Object.Installed.{installed_hook}
use memwrapper.Hook.Object.Patched.{redirected_bytes}
use memwrapper.Hook.Object.Access.{Accessible, installed-Accessible}
use memwrapper.Hook.Object.Placed.{Placed}
use memwrapper.Hook.Object.Restored.{Restored, remove-Restored}
use memwrapper.Hook.Object.Reads.{jump_to, Reads}
use memwrapper.Hook.Object.Saved.{Installable, cleared}
use memwrapper.Hook.Object.Phases.{Phase, idle, loaded, spent, is_other}
use memwrapper.Hook.Object.Phases.Memory.{Stands, Stands-eq}

module _ (win : Windows) (laws : WindowsLaws win) (d : Disassembler) (opcode : ℕ)
    (reads : Reads d opcode) (storage code : ℕ) (h₀ h : Memhook) (w : World win.Kernel)
    (can : Installable win storage code h w) (trampoline : List ℕ) where
  open win use {Kernel}

  abbrev pub k₁ : Kernel
  k₁ = grown win (cleared storage h.size w)

  abbrev pub page : (offset : ℕ) → BasicAllocator
  page offset = record { code = code; size = 4096; offset = offset }

  -- The object with the saved bytes and the trampoline.
  abbrev pub loaded_hook : (offset : ℕ) (on : Bool) → Memhook
  loaded_hook offset on = record h {
    original_code = some storage;
    trampoline_code = some (page offset);
    flags = record h.flags { installed = on };
  }

  -- In `env`, other code has written to what is not the hook's. Memory is as an installation there
  -- leaves it, but for the instruction at the hooked function and the five bytes in the trampoline
  -- that the phase speaks of.
  abbrev pub Loaded :
      (env : World Kernel) (on : Bool) (over : List ℕ) → Memhook → World Kernel → Type 0
  Loaded env on over h' u =
      (offset : ℕ) × (g : Bytes) × (h' ≡ loaded_hook offset on)
      × Placed storage code h trampoline (redirected_bytes opcode code h.hookee h.size) env.bytes g
      × Stands opcode code h g on over u.bytes
      × Same win env.kernel u.kernel
      × Accessible win storage code h env.kernel

  -- Later hooks are those that `remove` does not take for its own.
  abbrev pub IsLater : List ℕ → Type 0
  IsLater [] = Unit
  IsLater (other ∷ over) = (is_other code h.call_abs other ≡ true) × IsLater over

  -- Before the installation memory is that of `w`, and the kernel of `env` is the one to come.
  abbrev pub Represents : (env : World Kernel) → Phase → Memhook → World Kernel → Type 0
  Represents env idle h' u = (h' ≡ h₀) × (u ≡ w) × (env ≡ record { bytes = w.bytes; kernel = k₁ })
  Represents env (loaded on over) h' u = IsLater over × Loaded env on over h' u
  Represents env spent h' u = Restored win laws d opcode reads storage code h w can env h' u

  pub hookee-Apart : Apart code 4096 h.hookee 5
  hookee-Apart =
      let a : Apart code 4096 h.hookee (h.size + 32) =
        page-Apart win laws (cleared storage h.size w) code can.new h.hookee (h.size + 32)
          can.behind in
      omega (arith, a, can.enough)

  module _
      (head : (g : Bytes)
        → slice g code (length trampoline) ≡ trampoline
        → slice g (code + hooker_offset) 5 ≡ on_bytes h code) where
    -- What an installation leaves is a loaded phase.
    Placed-Stands :
        (f g : Bytes)
        → Placed storage code h trampoline (redirected_bytes opcode code h.hookee h.size) f g
        → Stands opcode code h g true [] g
    unfolding byteof
    Placed-Stands f g m = record {
      jump =
          (slice_parts g h.hookee (jump_to opcode code h.hookee)
            (replicate (h.size - jump_size) nop_opcode) m.patched).0;
      switch = head g m.trampoline;
      elsewhere = λ a x y. refl;
    }

    pub installed-Loaded :
        (t : BasicAllocator) (h' : Memhook) (u : World Kernel)
        → t.code ≡ code
        → t.size ≡ 4096
        → h' ≡ installed_hook storage h t
        → Placed storage code h trampoline
            (redirected_bytes opcode code h.hookee h.size)
            w.bytes
            u.bytes
        → Same win k₁ u.kernel
        → Loaded (record { bytes = w.bytes; kernel = k₁ }) true [] h' u
    installed-Loaded t h' u c z e m s = (
      t.offset,
      u.bytes,
      e
          ∙ ap₂ (λ p n. installed_hook storage h (record { code = p; size = n; offset = t.offset }))
              c z,
      m,
      Placed-Stands w.bytes u.bytes m,
      s,
      installed-Accessible win laws storage code h w can,
    )

    -- With no later hook there, `remove` unloads the hook.
    pub remove-spent :
        (env : World Kernel) (h' : Memhook) (u : World Kernel)
        → Loaded env true [] h' u
        → Returns (Restored win laws d opcode reads storage code h w can env) (remove win d h' u)
    remove-spent env h' u (o, g, e, m, st, s, a) = rw e (
        remove-Restored win laws d opcode reads storage code h w can (page o) u refl refl trampoline
          env
          (subst
            (Placed storage code h trampoline (redirected_bytes opcode code h.hookee h.size)
              env.bytes)
            (sym (Stands-eq opcode code h g hookee-Apart u.bytes (Placed-Stands env.bytes g m) st))
            m)
          a s)
