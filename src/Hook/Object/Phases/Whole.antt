-- ===== src/Hook/Object/Phases/Whole.antt =====
-- Two new hooks on one function, from the first installation to the last removal.
use memwrapper.Base.{
  ℕ, ◌≡◌, ◌≤◌, refl, sym, ◌∙◌, Bool, true, false, some, List, [], arith, length, within, Bool-cases,
  inl, inr,
}
use mathlib.Core.Path.{subst}
use memwrapper.Machine.{M, World, pure, ◌>>=◌}
use memwrapper.Machine.Returns
use memwrapper.Machine.Returns.{Returns, returns}
use memwrapper.Windows.{Windows, WindowsLaws}
use memwrapper.Hook.Disassembler.{Disassembler, DisassemblerLaws}
use memwrapper.Hook.Object.{Memhook, install, remove, jump_opcode}
use memwrapper.Hook.Object.Cycle.{reads_jump, installed_world}
use memwrapper.Hook.Object.Installed.{IsNew, install-InMemory, length-trampoline-le}
use memwrapper.Hook.Object.Saved.{Installable}
use memwrapper.Hook.Object.Written.{trampoline_bytes, Relocates}
use memwrapper.Hook.Object.Phases.Changes.{Loaded-outside, owned}
use memwrapper.Hook.Object.Phases.Lives.{head_jump}
use memwrapper.Hook.Object.Phases.Nested.{final, nested, nested-Alone}
use memwrapper.Hook.Object.Phases.Others.{IsNext}
use memwrapper.Hook.Object.Phases.Represents.{Loaded, installed-Loaded, remove-spent}

module _ (win : Windows) (d : Disassembler) where
  open win use {Kernel}

  -- Each hook is installed and removed, the second in between, and the first one switched under it.
  abbrev pub lives :
      (storage storage' : ℕ) → List Bool → Memhook → Memhook → M Kernel (Memhook × Memhook)
  lives storage storage' ons h b = install win d storage h >>= λ h'.
      nested win d storage storage' ons h' b >>= λ (h'', b').
      remove win d h'' >>= λ h₃. pure (h₃, b')

  -- Neither method does anything.
  abbrev pub IsInert : Memhook → Type 0
  IsInert h =
      ((s : ℕ) (v : World Kernel) → install win d s h v ≡ some (h, v))
      × ((v : World Kernel) → remove win d h v ≡ some (h, v))

module _ (win : Windows) (laws : WindowsLaws win) (d : Disassembler) (dis : DisassemblerLaws d)
    (storage code : ℕ) (h : Memhook) (w : World win.Kernel) (new : IsNew h)
    (can : Installable win storage code h w) (bs : List ℕ) (r : Relocates d w.bytes code h bs) where
  open win use {Kernel}

  abbrev trampoline : List ℕ
  trampoline = trampoline_bytes h code bs

  fits : length trampoline ≤ 4096
  fits = length-trampoline-le win laws d dis storage code h w new can bs r

  abbrev env : World Kernel
  env = installed_world win storage h w

  abbrev Loads : (env : World Kernel) → Bool → Memhook → World Kernel → Type 0
  Loads e on =
      Loaded win laws d jump_opcode (reads_jump d dis) storage code h h w can trampoline e on []

  module _ (h' : Memhook) (u : World Kernel) (e : install win d storage h w ≡ some (h', u))
      (storage' code' : ℕ) (b : Memhook) (can' : Installable win storage' code' b u)
      (next : IsNext storage code h storage' code' b) (new' : IsNew b) where
    first-Loaded : Loads env true h' u
    first-Loaded =
        let (t, c, z, same, m, s) =
          Returns.result (install-InMemory win laws d dis storage code h w new can bs r) e in
        installed-Loaded win laws d jump_opcode (reads_jump d dis) storage code h h w can trampoline
          (head_jump h code bs) t h' u c z same m s

    -- Every byte is as before but for the saved bytes and the pages of the two, and both are inert.
    abbrev pub Undone : Memhook × Memhook → World Kernel → Type 0
    Undone (x, y) z =
        ((a : ℕ)
          → within storage h.size a ≡ false
          → within code 4096 a ≡ false
          → within storage' b.size a ≡ false
          → within code' 4096 a ≡ false
          → z.bytes a ≡ w.bytes a)
        × IsInert win d x
        × IsInert win d y

    undone_at :
        (env' v : World Kernel) (x : Memhook)
        → Loads env' true x v
        → ((a : ℕ) → within h.hookee h.size a ≡ true → env'.bytes a ≡ env.bytes a)
        → ((a : ℕ)
            → owned storage code h a ≡ false
            → owned storage' code' b a ≡ false
            → v.bytes a ≡ u.bytes a)
        → (a : ℕ) → within storage h.size a ≡ false
        → within code 4096 a ≡ false
        → within storage' b.size a ≡ false
        → within code' 4096 a ≡ false
        → env'.bytes a ≡ w.bytes a
    undone_at env' v x l saved untouched a p q p' q' =
        elim (Bool-cases (within h.hookee h.size a)) [
          | inl covered ↦ saved a covered
          | inr out ↦
              let mine : owned storage code h a ≡ false = rw (p, q, out) refl in
              let theirs : owned storage' code' b a ≡ false =
                ground (arith, p', q', out, next.same, next.covered, can.enough) in
              sym (
                Loaded-outside win laws d jump_opcode (reads_jump d dis) storage code h h w can
                  trampoline fits env' true [] x v l a mine)
              ∙ untouched a mine theirs
              ∙ Loaded-outside win laws d jump_opcode (reads_jump d dis) storage code h h w can
                  trampoline fits env true [] h' u first-Loaded a mine
        ]

    -- Let a new hook that may be installed, on instructions of which the first is no call and which
    -- are rewritten from the covered bytes alone, have been installed, and let a second hook that is
    -- new and may be installed then lie on the five bytes of its jump, save them where the first has
    -- nothing, and not have its page where the first one's call would lead. The first is installed,
    -- then the second; the first is removed and installed any number of times, in any order, of
    -- which the last call, if any, installs it; and then the second is removed, and the first. All
    -- of that returns. In the end every byte is as it was but for the arrays of saved bytes and the
    -- trampolines' pages, and both hooks are inert.
    pub lives-Undone :
        (ons : List Bool)
        → final true ons ≡ true
        → Returns Undone (lives win d storage storage' ons h b w)
    lives-Undone ons on = Returns.after _ h' u e (
        Returns.bind
          (nested-Alone win laws d dis storage code h h w can trampoline fits storage' code' b u
            can' next env true [] tt new' h' first-Loaded new.not_broken new.executable ons)
          λ (x, y) v (env', l, saved, inert, inert', untouched).
            let l' : Loads env' true x v = subst (λ o. Loads env' o x v) on l in
            Returns.bind
              (remove-spent win laws d jump_opcode (reads_jump d dis) storage code h h w can
                trampoline (head_jump h code bs) env' x v l')
              λ x' z s. returns (
                λ a p q p' q'. s.0 a p q ∙ undone_at env' v x l' saved untouched a p q p' q',
                (s.1, s.2),
                (inert, inert'),
              ))
