-- ===== src/Hook/Object/Phases/Pair.antt =====
-- Two hooks on one function: the second is installed on the jump of the first, which is switched on
-- and off under it.
use memwrapper.Base.{
  ℕ, within, refl, ◌≡◌, ◌≤◌, sym, ◌∙◌, ◌<◌, Bool, true, false, List, [], ◌∷◌, arith, length,
  word_mod, ◌+◌,
}
use mathlib.Core.Path.{subst}
use memwrapper.Machine.{World, slice}
use memwrapper.Machine.Returns
use memwrapper.Machine.Returns.{Returns, returns, of_eq}
use memwrapper.Machine.Overlay.{slice-ext}
use memwrapper.Windows.{Windows, WindowsLaws}
use memwrapper.Allocator.Fresh.{page_in_space}
use memwrapper.Hook.Disassembler.{Disassembler, DisassemblerLaws}
use memwrapper.Hook.Object.{Memhook, install, jump_opcode, original_offset}
use memwrapper.Hook.Object.Access.{Accessible, Accessible-Same}
use memwrapper.Hook.Object.Cycle.{reads_jump, installed_world}
use memwrapper.Hook.Object.Installed.{IsNew, install-InMemory, length-trampoline-le}
use memwrapper.Hook.Object.Saved.{Installable, cleared}
use memwrapper.Hook.Object.Written.{trampoline_bytes, Relocates}
use memwrapper.Hook.Object.Phases.{leads}
use memwrapper.Hook.Object.Reads.{jump_to}
use memwrapper.Hook.Object.Phases.Changes.{Loaded-outside, owned}
use memwrapper.Hook.Object.Phases.Lives.{head_jump}
use memwrapper.Hook.Object.Phases.Others.{
  IsNext, renewed, installed-Loaded_under, switched-Loaded_over,
}
use memwrapper.Hook.Object.Phases.Relocated.{relocated_bytes, jump-Relocates}
use memwrapper.Hook.Object.Phases.Represents.{Loaded, IsLater, installed-Loaded}

module _ (win : Windows) (laws : WindowsLaws win) (d : Disassembler) (dis : DisassemblerLaws d)
    (storage code : ℕ) (h₀ h : Memhook) (w : World win.Kernel)
    (can : Installable win storage code h w) (trampoline : List ℕ)
    (fits : length trampoline ≤ 4096) where
  open win use {Kernel}

  abbrev pub Loads :
      (env : World Kernel) (on : Bool) (over : List ℕ) → Memhook → World Kernel → Type 0
  Loads = Loaded win laws d jump_opcode (reads_jump d dis) storage code h₀ h w can trampoline

  later-lt :
      code < word_mod
      → (over : List ℕ)
      → IsLater win laws d jump_opcode (reads_jump d dis) storage code h₀ h w can trampoline over
      → leads code over < word_mod
  later-lt lt [] tt = lt
  later-lt lt (other ∷ over) (o, _) = ground (arith, o)

  module _ (storage' code' : ℕ) (b : Memhook) (u : World Kernel)
      (can' : Installable win storage' code' b u) (next : IsNext storage code h storage' code' b)
      (env : World Kernel) (on : Bool) (over : List ℕ)
      (later : IsLater win laws d jump_opcode
        (reads_jump d dis)
        storage
        code
        h₀
        h
        w
        can
        trampoline
        over)
      (new : IsNew b) (h' : Memhook) (l : Loads env on over h' u) where
    pub access : Accessible win storage code h u.kernel
    access = Accessible-Same win storage code h l.6 l.5

    pub leads-lt : leads code over < word_mod
    leads-lt =
        later-lt (omega (arith, page_in_space win laws (cleared storage h.size w) code can.new))
          over later

    -- The bytes of the second hook's trampoline.
    abbrev pub second_bytes : List ℕ
    second_bytes = relocated_bytes (leads code over) b.hookee (code' + original_offset)

    second-Relocates : Relocates d u.bytes code' b second_bytes
    second-Relocates =
        jump-Relocates d dis u.bytes code' (leads code over) b leads-lt
          (subst (λ p. slice u.bytes p 5 ≡ jump_to jump_opcode (leads code over) p) (sym next.same)
            l.4.jump)
          next.covered

    pub short' : length (trampoline_bytes b code' second_bytes) ≤ 4096
    short' =
        length-trampoline-le win laws d dis storage' code' b u new can' second_bytes
          second-Relocates

    abbrev SecondLoads : World Kernel → Memhook → World Kernel → Type 0
    SecondLoads e b' v =
        Loaded win laws d jump_opcode (reads_jump d dis) storage' code' b b u can'
          (trampoline_bytes b code' second_bytes) e true [] b' v

    -- Both hooks are there, the second over the first.
    pub record Both (on' : Bool) (a' b' : Memhook) (v : World Kernel) : Type 0 where
      pub env₁ : World Kernel
      pub env₂ : World Kernel
      pub first : Loads env₁ on' (code' ∷ over) a' v
      pub second : SecondLoads env₂ b' v
      pub kept : (a : ℕ) → within h.hookee h.size a ≡ true → env₁.bytes a ≡ env.bytes a
      pub below : slice env₂.bytes h.hookee 5 ≡ jump_to jump_opcode (leads code over) h.hookee
      pub untouched :
          (a : ℕ)
          → owned storage code h a ≡ false
          → owned storage' code' b a ≡ false
          → v.bytes a ≡ u.bytes a

    -- The second hook is installed.
    pub install-Both : Returns (Both on h') (install win d storage' b u)
    install-Both =
        Returns.mono
          (install-InMemory win laws d dis storage' code' b u new can' second_bytes
            second-Relocates)
          λ b' v (t, c, z, e, m, s). record {
            env₁ = renewed h env v;
            env₂ = installed_world win storage' b u;
            first =
                installed-Loaded_under win laws d jump_opcode (reads_jump d dis) storage code h₀ h w
                  can trampoline fits storage' code' b u can' next access env on over h' v _ l m s;
            second =
                installed-Loaded win laws d jump_opcode (reads_jump d dis) storage' code' b b u can'
                  _ (head_jump b code' _) t b' v c z e m s;
            kept = λ a i. rw i refl;
            below = l.4.jump;
            untouched =
                λ a x y. m.elsewhere a (ground (arith, y)) (ground (arith, y)) (ground (arith, y));
          }

    -- The first one is switched under it.
    pub Both-switched :
        (on' x : Bool) (a' a'' b' : Memhook) (v v' : World Kernel) (r : Both on' a' b' v)
        → Loads r.env₁ x (code' ∷ over) a'' v'
        → Both x a'' b' v'
    Both-switched on' x a' a'' b' v v' r m = record {
      env₁ = r.env₁;
      env₂ = renewed b r.env₂ v';
      first = m;
      second =
          switched-Loaded_over win laws d jump_opcode (reads_jump d dis) storage code h₀ h w can
            trampoline fits storage' code' b u can' next access jump_opcode (reads_jump d dis)
            r.env₁ r.env₂ on' x true (code' ∷ over) [] a' a'' b' b v v' _ short' r.first m r.second;
      kept = r.kept;
      below =
          slice-ext (renewed b r.env₂ v').bytes r.env₂.bytes h.hookee h.hookee 5
            (λ i lt. ground (arith, next.same, next.covered))
          ∙ r.below;
      untouched = λ a p q.
          Loaded-outside win laws d jump_opcode (reads_jump d dis) storage code h₀ h w can
            trampoline fits r.env₁ x (code' ∷ over) a'' v' m a p
          ∙ sym (
              Loaded-outside win laws d jump_opcode (reads_jump d dis) storage code h₀ h w can
                trampoline fits r.env₁ on' (code' ∷ over) a' v r.first a p)
          ∙ r.untouched a p q;
    }
