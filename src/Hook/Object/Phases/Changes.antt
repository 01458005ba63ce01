-- ===== src/Hook/Object/Phases/Changes.antt =====
-- Other code may write to the rest of memory, and to the instruction at the hooked function.
use memwrapper.Base.{
  ℕ, ◌+◌, ◌≤◌, ◌≡◌, refl, sym, ap, ◌∙◌, Bool, true, false, ◌||◌, List, length, arith, Apart, within,
  if◌then◌else◌,
}
use memwrapper.Machine.{Bytes, World, slice, overlay}
use memwrapper.Machine.Overlay.{slice-ext, slice-overlay_apart, overlay_at}
use mathlib.Core.Path.{subst}
use memwrapper.Windows.{Windows, WindowsLaws}
use memwrapper.Llmo.Unprotect.Scope.{Same}
use memwrapper.Hook.Disassembler.{Disassembler}
use memwrapper.Hook.Object.{Memhook, hooker_offset}
use memwrapper.Hook.Object.Access.{Accessible}
use memwrapper.Hook.Object.Patched.{redirected_bytes, length-redirected_bytes}
use memwrapper.Hook.Object.Reads.{jump_to, Reads}
use memwrapper.Hook.Object.Saved.{Installable}
use memwrapper.Hook.Object.Phases.{leads, is_elsewhere}
use memwrapper.Hook.Object.Phases.Memory.{Stands, Stands-overlay_jump}
use memwrapper.Hook.Object.Phases.Represents.{Loaded, hookee-Apart}

-- The bytes of the hooked function, of the saved bytes and of the trampoline's page.
abbrev pub owned : (storage code : ℕ) → Memhook → (a : ℕ) → Bool
owned storage code h a = within h.hookee h.size a || within storage h.size a || within code 4096 a

pub free_of_owned :
    (storage code : ℕ) (h : Memhook) (p n a : ℕ)
    → is_elsewhere storage code h p n ≡ true
    → owned storage code h a ≡ true
    → within p n a ≡ false
free_of_owned storage code h p n a free own = ground (arith, free, own)

overlay_outside :
    (f : Bytes) (p : ℕ) (bs : List ℕ) (a : ℕ)
    → within p (length bs) a ≡ false
    → overlay f p bs a ≡ f a
overlay_outside f p bs a out = overlay_at f p bs a ∙ rw out refl

overlay-ext :
    (f g : Bytes) (p : ℕ) (bs : List ℕ) (a : ℕ) → f a ≡ g a → overlay f p bs a ≡ overlay g p bs a
overlay-ext f g p bs a e = ground (arith, overlay_at f p bs a, overlay_at g p bs a, e)

module _ (win : Windows) (laws : WindowsLaws win) (d : Disassembler) (opcode : ℕ)
    (reads : Reads d opcode) (storage code : ℕ) (h₀ h : Memhook) (w : World win.Kernel)
    (can : Installable win storage code h w) (trampoline : List ℕ)
    (fits : length trampoline ≤ 4096) where
  open win use {Kernel}

  abbrev Loads : (env : World Kernel) (on : Bool) (over : List ℕ) → Memhook → World Kernel → Type 0
  Loads = Loaded win laws d opcode reads storage code h₀ h w can trampoline

  -- Apart from the hook's ranges, memory is what other code has made of it.
  pub Loaded-outside :
      (env : World Kernel) (on : Bool) (over : List ℕ) (h' : Memhook) (u : World Kernel)
      → Loads env on over h' u
      → (a : ℕ) → owned storage code h a ≡ false
      → u.bytes a ≡ env.bytes a
  Loaded-outside env on over h' u (o, g, e, m, st, _, _) a out =
      st.elsewhere a (ground (arith, out, can.enough)) (ground (arith, out))
      ∙ m.elsewhere a (ground (arith, out)) (ground (arith, out)) (ground (arith, out))

  -- A hook stays loaded when nothing of its own changes but the instruction at the hooked function.
  pub Loaded-change :
      (env env' : World Kernel) (on : Bool) (over over' : List ℕ) (h' : Memhook)
      (u v : World Kernel)
      → Loads env on over h' u
      → slice v.bytes h.hookee 5 ≡ jump_to opcode (leads code over') h.hookee
      → ((a : ℕ)
          → owned storage code h a ≡ true
          → within h.hookee 5 a ≡ false
          → v.bytes a ≡ u.bytes a)
      → ((a : ℕ) → within h.hookee h.size a ≡ true → env'.bytes a ≡ env.bytes a)
      → ((a : ℕ) → owned storage code h a ≡ false → env'.bytes a ≡ v.bytes a)
      → Same win env'.kernel v.kernel
      → Accessible win storage code h env'.kernel
      → Loads env' on over' h' v
  Loaded-change env env' on over over' h' u v (o, g, e, m, st, _, _) jump own saved rest s access =
      (
        o,
        g',
        e,
        record {
          trampoline =
              slice-ext g' g code code (length trampoline) (λ i lt. ground (arith, fits))
              ∙ m.trampoline;
          patched =
              slice-ext g' g h.hookee h.hookee
                (length (redirected_bytes opcode code h.hookee h.size))
                (λ i lt.
                  ground (arith, length-redirected_bytes opcode code h.hookee h.size can.enough))
              ∙ m.patched;
          saved =
              slice-ext g' g storage storage h.size (λ i lt. ground arith)
              ∙ m.saved
              ∙ slice-ext env.bytes env'.bytes h.hookee h.hookee h.size
                  (λ i lt. sym (saved (h.hookee + i) (ground arith)));
          elsewhere = λ a x y z. ground (arith, rest a);
        },
        record {
          jump = jump;
          switch =
              slice-ext v.bytes u.bytes (code + hooker_offset) (code + hooker_offset) 5
                (λ i lt. own (code + hooker_offset + i) (ground arith) (ground (arith, apart)))
              ∙ st.switch;
          elsewhere = λ a x y. ground (arith, own a, st.elsewhere a);
        },
        s,
        access,
      )
    where
      g' : Bytes
      g' = λ a. if owned storage code h a then g a else v.bytes a

      apart : Apart code 4096 h.hookee 5
      apart = hookee-Apart win laws d opcode reads storage code h₀ h w can trampoline

  -- A later hook writes its jump, or puts back what it found.
  pub overwritten-Loaded :
      (env : World Kernel) (on : Bool) (over over' : List ℕ) (h' : Memhook) (u : World Kernel)
      → Loads env on over h' u
      → Loads env on over' h' (record u {
        bytes = overlay u.bytes h'.hookee (jump_to opcode (leads code over') h'.hookee);
      })
  overwritten-Loaded env on over over' h' u (o, g, e, m, st, s, a) = (
    o,
    g,
    e,
    m,
    subst
        (λ p.
          Stands opcode code h g on over' (overlay u.bytes p (jump_to opcode (leads code over') p)))
        (sym (ap (λ (x : Memhook). x.hookee) e))
        (Stands-overlay_jump opcode code h g
          (hookee-Apart win laws d opcode reads storage code h₀ h w can trampoline) on over over'
          u.bytes st),
    s,
    a,
  )

  -- Other code writes elsewhere.
  pub written-Loaded :
      (env : World Kernel) (on : Bool) (over : List ℕ) (h' : Memhook) (u : World Kernel) (p : ℕ)
      (bs : List ℕ)
      → is_elsewhere storage code h p (length bs) ≡ true
      → Loads env on over h' u
      → Loads
          (record env { bytes = overlay env.bytes p bs })
          on
          over
          h'
          (record u { bytes = overlay u.bytes p bs })
  written-Loaded env on over h' u p bs free l =
      Loaded-change env (record env { bytes = overlay env.bytes p bs }) on over over h' u
        (record u { bytes = overlay u.bytes p bs }) l
        (slice-overlay_apart u.bytes p bs h.hookee 5 (ground (arith, free, can.enough)) ∙ l.4.jump)
        (λ a own x.
          overlay_outside u.bytes p bs a (free_of_owned storage code h p (length bs) a free own))
        (λ a i.
          overlay_outside env.bytes p bs a
            (free_of_owned storage code h p (length bs) a free (ground (arith, i))))
        (λ a out.
          overlay-ext env.bytes u.bytes p bs a (sym (Loaded-outside env on over h' u l a out)))
        l.5 l.6
