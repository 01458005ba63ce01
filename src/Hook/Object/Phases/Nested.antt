-- ===== src/Hook/Object/Phases/Nested.antt =====
-- The life of a second hook on a hooked function: it is removed before the first one, and in between
-- the program installs and removes the first one as it likes.
use memwrapper.Base.{
  ℕ, within, ◌≡◌, ◌≤◌, sym, ap, ◌∙◌, Bool, true, false, some, List, [], ◌∷◌, arith, length,
  if◌then◌else◌,
}
use memwrapper.Machine.{M, World, pure, ◌>>=◌}
use memwrapper.Machine.Returns
use memwrapper.Machine.Returns.{Returns, returns, of_eq}
use memwrapper.Windows.{Windows, WindowsLaws}
use memwrapper.Hook.Disassembler.{Disassembler, DisassemblerLaws}
use memwrapper.Hook.Object.{Memhook, install, remove, jump_opcode}
use memwrapper.Hook.Object.Cycle.{reads_jump}
use memwrapper.Hook.Object.Installed.{IsNew}
use memwrapper.Hook.Object.Saved.{Installable}
use memwrapper.Hook.Object.Phases.Changes.{Loaded-outside, owned}
use memwrapper.Hook.Object.Phases.Lives.{head_jump}
use memwrapper.Hook.Object.Phases.Others.{IsNext, renewed, restored-Loaded, next-is_other}
use memwrapper.Hook.Object.Phases.Refines.{install_installed, remove_not_installed}
use memwrapper.Hook.Object.Phases.Represents.{Loaded, IsLater, remove-spent}
use memwrapper.Hook.Object.Phases.Switches.{install-Loaded, remove-Loaded}
use memwrapper.Hook.Object.Phases.Pair.{Both, access, short', install-Both, Both-switched}

module _ (win : Windows) (d : Disassembler) where
  open win use {Kernel}

  -- The program calls `install` or `remove`.
  abbrev pub switch : (storage : ℕ) → Bool → Memhook → M Kernel Memhook
  switch storage on h = if on then install win d storage h else remove win d h

  abbrev pub switches : (storage : ℕ) → List Bool → Memhook → M Kernel Memhook
  switches storage [] h = pure h
  switches storage (on ∷ ons) h = switch storage on h >>= switches storage ons

  -- The second hook is installed, the first one switched, and the second removed.
  abbrev pub nested :
      (storage storage' : ℕ) → List Bool → Memhook → Memhook → M Kernel (Memhook × Memhook)
  nested storage storage' ons h b = install win d storage' b >>= λ b'.
      switches storage ons h >>= λ h'. remove win d b' >>= λ b''. pure (h', b'')

  -- Without the removal.
  abbrev pub stacked :
      (storage storage' : ℕ) → List Bool → Memhook → Memhook → M Kernel (Memhook × Memhook)
  stacked storage storage' ons h b =
      install win d storage' b >>= λ b'. switches storage ons h >>= λ h'. pure (h', b')

-- The last of the calls, if there is one.
abbrev pub final : Bool → List Bool → Bool
final on [] = on
final on (x ∷ ons) = final x ons

module _ (win : Windows) (laws : WindowsLaws win) (d : Disassembler) (dis : DisassemblerLaws d)
    (storage code : ℕ) (h₀ h : Memhook) (w : World win.Kernel)
    (can : Installable win storage code h w) (trampoline : List ℕ)
    (fits : length trampoline ≤ 4096) where
  open win use {Kernel}

  abbrev Loads : (env : World Kernel) (on : Bool) (over : List ℕ) → Memhook → World Kernel → Type 0
  Loads = Loaded win laws d jump_opcode (reads_jump d dis) storage code h₀ h w can trampoline

  module _ (storage' code' : ℕ) (b : Memhook) (u : World Kernel)
      (can' : Installable win storage' code' b u) (next : IsNext storage code h storage' code' b)
      (env : World Kernel) (on : Bool) (over : List ℕ)
      (later : IsLater win laws d jump_opcode
        (reads_jump d dis)
        storage
        code
        h₀
        h
        w
        can
        trampoline
        over)
      (new : IsNew b) (h' : Memhook) (l : Loads env on over h' u) where
    abbrev Together : (on' : Bool) (a' b' : Memhook) (v : World Kernel) → Type 0
    Together =
        Both win laws d dis storage code h₀ h w can trampoline fits storage' code' b u can' next env
          on over later new h' l

    installed : Returns (Together on h') (install win d storage' b u)
    installed =
        install-Both win laws d dis storage code h₀ h w can trampoline fits storage' code' b u can'
          next env on over later new h' l

    module _ (not_broken : h.flags.listing_broken ≡ false)
        (executable : h.flags.executable ≡ true) where
      switch-Loads :
          (e : World Kernel) (on' x : Bool) (a' : Memhook) (v : World Kernel)
          → Loads e on' (code' ∷ over) a' v
          → Returns (Loads e x (code' ∷ over)) (switch win d storage x a' v)
      switch-Loads e true true a' v m =
          of_eq (install_installed win d a' v storage (ap (λ (y : Memhook). y.flags.installed) m.2))
            m
      switch-Loads e false true a' v m =
          install-Loaded win laws d jump_opcode (reads_jump d dis) storage code h₀ h w can
            trampoline not_broken executable e (code' ∷ over) a' v m
      switch-Loads e true false a' v m =
          remove-Loaded win laws d jump_opcode (reads_jump d dis) storage code h₀ h w can trampoline
            not_broken executable e code' over a' v
            (next-is_other win laws d jump_opcode (reads_jump d dis) storage code h₀ h w can
              trampoline fits storage' code' b u can' next
              (access win laws d dis storage code h₀ h w can trampoline fits storage' code' b u can'
                next env on over later new h' l))
            m
      switch-Loads e false false a' v m =
          of_eq (remove_not_installed win d a' v (ap (λ (y : Memhook). y.flags.installed) m.2)) m

      switches-Both :
          (ons : List Bool) (on' : Bool) (a' b' : Memhook) (v : World Kernel)
          → Together on' a' b' v
          → Returns (λ a'' v'. Together (final on' ons) a'' b' v') (switches win d storage ons a' v)
      switches-Both [] on' a' b' v r = returns r
      switches-Both (x ∷ ons) on' a' b' v r =
          Returns.bind (switch-Loads r.env₁ on' x a' v r.first) λ a'' v' m.
            switches-Both ons x a'' b' v' (
              Both-switched win laws d dis storage code h₀ h w can trampoline fits storage' code' b
                u can' next env on over later new h' l on' x a' a'' b' v v' r m)

      pub stacked-Both :
          (ons : List Bool)
          → Returns
              (λ (a', b') v. Together (final on ons) a' b' v)
              (stacked win d storage storage' ons h' b u)
      stacked-Both ons =
          Returns.bind installed
            λ b' v r. Returns.bind (switches-Both ons on h' b' v r) λ a' v' r'. returns r'

      -- After the second hook is gone the first one is as the last call has left it.
      abbrev pub Alone : (on' : Bool) → Memhook × Memhook → World Kernel → Type 0
      Alone on' (a', b') x =
          (env' : World Kernel) × Loads env' on' over a' x
          × ((a : ℕ) → within h.hookee h.size a ≡ true → env'.bytes a ≡ env.bytes a)
          × ((s : ℕ) (v : World Kernel) → install win d s b' v ≡ some (b', v))
          × ((v : World Kernel) → remove win d b' v ≡ some (b', v))
          × ((a : ℕ)
              → owned storage code h a ≡ false
              → owned storage' code' b a ≡ false
              → x.bytes a ≡ u.bytes a)

      remove-Alone :
          (on' : Bool) (a' b' : Memhook) (v : World Kernel)
          → Together on' a' b' v
          → Returns (λ b'' x. Alone on' (a', b'') x) (remove win d b' v)
      remove-Alone on' a' b' v r =
          Returns.mono
            (remove-spent win laws d jump_opcode (reads_jump d dis) storage' code' b b u can' _
              (head_jump b code' _) r.env₂ b' v r.second)
            λ b'' x s. (
              renewed h r.env₁ x,
              restored-Loaded win laws d jump_opcode (reads_jump d dis) storage code h₀ h w can
                  trampoline fits storage' code' b u can' next
                  (access win laws d dis storage code h₀ h w can trampoline fits storage' code' b u
                    can' next env on over later new h' l)
                  jump_opcode (reads_jump d dis) r.env₁ r.env₂ on' true over [] a' b' b'' b v x _
                  (short' win laws d dis storage code h₀ h w can trampoline fits storage' code' b u
                    can' next env on over later new h' l)
                  r.first r.second r.below s,
              λ a i. rw i (r.kept a i),
              s.1,
              s.2,
              λ a p q.
                  s.0 a (ground (arith, q)) (ground (arith, q))
                  ∙ sym (
                      Loaded-outside win laws d jump_opcode (reads_jump d dis) storage' code' b b u
                        can' _
                        (short' win laws d dis storage code h₀ h w can trampoline fits storage'
                          code' b u can' next env on over later new h' l)
                        r.env₂ true [] b' v r.second a q)
                  ∙ r.untouched a p q,
            )

      -- Let a hook that is redirected by a jump be loaded, on or off, under any later hooks, with a
      -- trampoline that fits into its page, a listing that is not broken and on an executable
      -- function, and let a second hook that is new and may be installed lie
      -- on the five bytes of the jump at the hooked function, save them where the first has
      -- nothing, and not have its page where the first one's call led. The second is installed, the
      -- first one is installed and removed any number of times, in any order, and the second is
      -- removed. All of that returns. The first hook is then loaded under the same later hooks, on
      -- or off as the last of its calls says, with the same bytes saved; the second is inert; and
      -- no byte has changed but those of the hooked function, of the saved bytes and of the
      -- trampolines' pages.
      pub nested-Alone :
          (ons : List Bool)
          → Returns (Alone (final on ons)) (nested win d storage storage' ons h' b u)
      nested-Alone ons = Returns.bind installed λ b' v r.
          Returns.bind (switches-Both ons on h' b' v r) λ a'' v' r'.
            Returns.bind (remove-Alone (final on ons) a'' b' v' r') λ b'' x alone. returns alone
