-- ===== src/Hook/Object/Phases/Switches.antt =====
-- In a loaded phase `install` and `remove` switch the trampoline on and off.
use memwrapper.Base.{ℕ, ◌+◌, ◌≡◌, refl, sym, Bool, true, false, List, ◌∷◌, arith, Apart}
use mathlib.Core.Path.{subst}
use memwrapper.Machine.{World}
use memwrapper.Machine.Returns
use memwrapper.Machine.Returns.{Returns, returns}
use memwrapper.Windows.{Windows, WindowsLaws}
use memwrapper.Llmo.Unprotect.Scope.{Same-trans}
use memwrapper.Llmo.Operations.Kept.{IsOpen}
use memwrapper.Llmo.Operations.Open.{IsOpen-part}
use memwrapper.Allocator.{BasicAllocator}
use memwrapper.Allocator.Appends.{HasRoom}
use memwrapper.Hook.Disassembler.{Disassembler}
use memwrapper.Hook.Object.{Memhook, install, remove, hooker_offset, jump_size}
use memwrapper.Hook.Object.Chained.{remove-Off, install-On}
use memwrapper.Hook.Object.Reads.{Reads}
use memwrapper.Hook.Object.Access.{Accessible, Accessible-Same}
use memwrapper.Hook.Object.Saved.{Installable}
use memwrapper.Hook.Object.Phases.{is_other}
use memwrapper.Hook.Object.Phases.Memory.{Stands, Stands-overlay_switch}
use memwrapper.Hook.Object.Phases.Represents.{Loaded, page, loaded_hook, hookee-Apart}

module _ (win : Windows) (laws : WindowsLaws win) (d : Disassembler) (opcode : ℕ)
    (reads : Reads d opcode) (storage code : ℕ) (h₀ h : Memhook) (w : World win.Kernel)
    (can : Installable win storage code h w) (trampoline : List ℕ) where
  open win use {Kernel}

  abbrev Loads : (env : World Kernel) (on : Bool) (over : List ℕ) → Memhook → World Kernel → Type 0
  Loads = Loaded win laws d opcode reads storage code h₀ h w can trampoline

  abbrev page_to : (offset : ℕ) → BasicAllocator
  page_to = page win laws d opcode reads storage code h₀ h w can trampoline

  abbrev hook_to : (offset : ℕ) (on : Bool) → Memhook
  hook_to = loaded_hook win laws d opcode reads storage code h₀ h w can trampoline

  apart : Apart code 4096 h.hookee 5
  apart = hookee-Apart win laws d opcode reads storage code h₀ h w can trampoline

  -- The trampoline's page may be written, in the part that leads to the hooker too.
  page_room :
      (k : Kernel) → Accessible win storage code h k → HasRoom win k (page_to hooker_offset) 5
  page_room k a = record {
    valid = record { in_region = omega arith; word = omega arith };
    room = omega arith;
    writable = a.page_write;
  }

  jump_open :
      (k : Kernel) → Accessible win storage code h k → IsOpen win k (code + hooker_offset) jump_size
  jump_open k a =
      IsOpen-part win laws code 4096 (code + hooker_offset) jump_size a.page (omega arith)
        (omega arith) (omega arith)

  module _ (not_broken : h.flags.listing_broken ≡ false)
      (executable : h.flags.executable ≡ true) where
    -- Under a later hook, `remove` switches the trampoline off.
    pub remove-Loaded :
        (env : World Kernel) (other : ℕ) (over : List ℕ) (h' : Memhook) (u : World Kernel)
        → is_other code h.call_abs other ≡ true
        → Loads env true (other ∷ over) h' u
        → Returns (Loads env false (other ∷ over)) (remove win d h' u)
    remove-Loaded env other over h' u fits (o, g, e, m, st, s, a) =
        let now : Accessible win storage code h u.kernel = Accessible-Same win storage code h a s in
        rw e (
          Returns.mono
            (remove-Off win laws d opcode other storage (page_to o) (hook_to o true) u reads
              (record {
                installed = refl;
                not_broken = not_broken;
                executable = executable;
                original = refl;
                trampoline = refl;
                stands = st.jump;
                can_read = λ i lt. now.target_read i (omega (arith, lt, can.enough));
                other_word = ground (arith, fits);
                not_own = ground (arith, fits);
                not_call = ground (arith, fits);
                room = page_room u.kernel now;
                jump_open = jump_open u.kernel now;
              }))
            λ h'' v (o', e', e'', s'). (
              o',
              g,
              e',
              m,
              subst (Stands opcode code h g false (other ∷ over)) (sym e'') (
                  Stands-overlay_switch opcode code h g apart true false (other ∷ over) u.bytes st),
              Same-trans win s s',
              a,
            ))

    -- `install` switches it on.
    pub install-Loaded :
        (env : World Kernel) (over : List ℕ) (h' : Memhook) (u : World Kernel)
        → Loads env false over h' u
        → Returns (Loads env true over) (install win d storage h' u)
    install-Loaded env over h' u (o, g, e, m, st, s, a) = rw e (
        Returns.mono
          (install-On win laws d storage storage (page_to o) (hook_to o false) u refl not_broken
            executable refl refl (page_room u.kernel (Accessible-Same win storage code h a s)))
          λ h'' v (e', e'', s'). (
            16,
            g,
            e',
            m,
            subst (Stands opcode code h g true over) (sym e'')
                (Stands-overlay_switch opcode code h g apart false true over u.bytes st),
            Same-trans win s s',
            a,
          ))
