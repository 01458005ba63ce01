-- ===== src/Hook/Object/Phases/Refines.antt =====
-- A hook refines the state machine of its phases.
use memwrapper.Base.{
  ℕ, ◌+◌, ◌≤◌, ◌≡◌, ◌==◌, ==_iff, arith, refl, ap, ◌∙◌, Bool, true, false, Option, none, some, List,
  [], ◌∷◌, length,
}
use mathlib.Core.Path.{subst}
use memwrapper.Machine.{Bytes, World, slice}
use memwrapper.Machine.Overlay.{overlay_at}
use memwrapper.Machine.Returns
use memwrapper.Machine.Returns.{Returns, returns, of_eq}
use memwrapper.Windows.{Windows, WindowsLaws}
use memwrapper.Allocator.{BasicAllocator}
use memwrapper.Allocator.Fresh.{grown}
use memwrapper.Llmo.Unprotect.Scope.{Same}
use memwrapper.Hook.Disassembler.{Disassembler}
use memwrapper.Hook.Object.{Memhook, install, remove, hooker_offset}
use memwrapper.Hook.Object.Chained.{on_bytes}
use memwrapper.Hook.Object.Installed.{installed_hook}
use memwrapper.Hook.Object.Patched.{redirected_bytes}
use memwrapper.Hook.Object.Placed.{Placed}
use memwrapper.Hook.Object.Reads.{Reads}
use memwrapper.Hook.Object.Saved.{Installable, cleared}
use memwrapper.Hook.Object.Phases.{
  Phase, idle, loaded, spent, Event, call_install, call_remove, bury, unbury, elsewhere, is_other,
  is_elsewhere, leads, guarded, outside, next, follow, occur, run,
}
use memwrapper.Hook.Object.Phases.Changes.{overwritten-Loaded, written-Loaded}
use memwrapper.Hook.Object.Phases.Represents.{Represents, installed-Loaded, remove-spent}
use memwrapper.Hook.Object.Phases.Switches.{remove-Loaded, install-Loaded}

module _ (win : Windows) (d : Disassembler) (h : Memhook) (w : World win.Kernel) where
  -- Installing what is installed, or removing what is not, does nothing.
  pub install_installed :
      (storage : ℕ) → h.flags.installed ≡ true → install win d storage h w ≡ some (h, w)
  unfolding install
  install_installed storage e = rw e refl

  pub remove_not_installed : h.flags.installed ≡ false → remove win d h w ≡ some (h, w)
  unfolding remove
  remove_not_installed e = rw e refl

-- The first event of a list leads to a phase from which the others go on.
pub follow_rest :
    (storage code : ℕ) (h : Memhook) (o : Option Phase) (es : List Event) (q : Phase)
    → elim o [ none ↦ none | some p ↦ follow storage code h p es ] ≡ some q
    → (p : Phase) × (o ≡ some p) × (follow storage code h p es ≡ some q)
follow_rest storage code h none es q n = cc
follow_rest storage code h (some p) es q n = (p, refl, n)

-- A guarded step was allowed, and leads where it says.
guarded-some : (b : Bool) (p q : Phase) → guarded b p ≡ some q → (b ≡ true) × (p ≡ q)
guarded-some true p q e = (refl, cc e)
guarded-some false p q e = cc

-- What other code makes of memory in a first event, and in the others.
outside-cons :
    (f : Bytes) (e : Event) (es : List Event) → outside (outside f (e ∷ [])) es ≡ outside f (e ∷ es)
outside-cons f call_install es = refl
outside-cons f call_remove es = refl
outside-cons f (bury other) es = refl
outside-cons f (unbury below) es = refl
outside-cons f (elsewhere p bs) es = refl

module _ (win : Windows) (laws : WindowsLaws win) (d : Disassembler) (opcode : ℕ)
    (reads : Reads d opcode) (storage code : ℕ) (h₀ h : Memhook) (w : World win.Kernel)
    (can : Installable win storage code h w) (trampoline : List ℕ) where
  open win use {Kernel}

  abbrev Holds : World Kernel → Phase → Memhook → World Kernel → Type 0
  Holds = Represents win laws d opcode reads storage code h₀ h w can trampoline

  -- The world that other code has made when an event is over.
  abbrev pub after : World Kernel → List Event → World Kernel
  after env es = record env { bytes = outside env.bytes es }

  module _ (fits : length trampoline ≤ 4096)
      (head : (g : Bytes)
        → slice g code (length trampoline) ≡ trampoline
        → slice g (code + hooker_offset) 5 ≡ on_bytes h code)
      (not_installed : h₀.flags.installed ≡ false) (not_broken : h.flags.listing_broken ≡ false)
      (executable : h.flags.executable ≡ true)
      (first : Returns
        (λ h' u.
          (t : BasicAllocator) × (t.code ≡ code)
          × (t.size ≡ 4096)
          × (h' ≡ installed_hook storage h t)
          × Placed storage code h trampoline
              (redirected_bytes opcode code h.hookee h.size)
              w.bytes
              u.bytes
          × Same win (grown win (cleared storage h.size w)) u.kernel)
        (install win d storage h₀ w)) where
    -- The next phase is the one that was computed.
    reach :
        (env : World Kernel) {p q : Phase} {r : Option (Memhook × World Kernel)}
        → some p ≡ some q
        → Returns (Holds env p) r
        → Returns (Holds env q) r
    reach env {p} {q} {r} e = subst (λ x. Returns (Holds env x) r) (cc e)

    allowed :
        (env : World Kernel) (p : Phase) {q : Phase} {r : Option (Memhook × World Kernel)}
        (b : Bool)
        → guarded b p ≡ some q
        → (b ≡ true → Returns (Holds env p) r)
        → Returns (Holds env q) r
    allowed env p {q} b e on_true =
        let (t, same) = guarded-some b p q e in reach env (ap some same) (on_true t)

    -- Each event that the phase allows returns, and leads to the next phase.
    occur-Represents :
        (env : World Kernel) (p q : Phase) (e : Event) (h' : Memhook) (u : World Kernel)
        → next storage code h p e ≡ some q
        → Holds env p h' u
        → Returns (Holds (after env (e ∷ [])) q) (occur win d opcode storage code e h' u)
    occur-Represents env idle q call_install h' u n (e, e', e'') = reach env n (
        rw (e, e', e'')
          (Returns.mono first λ x v (t, c, z, same, m, s). (
            tt,
            installed-Loaded win laws d opcode reads storage code h₀ h w can trampoline head t x v c
                z same m s,
          )))
    occur-Represents env idle q call_remove h' u n (e, e', e'') = reach env n (
        of_eq
          (remove_not_installed win d h' u
            (ap (λ (x : Memhook). x.flags.installed) e ∙ not_installed))
          (e, e', e''))
    occur-Represents env idle q (bury other) h' u n r = cc
    occur-Represents env idle q (unbury below) h' u n r = cc
    occur-Represents env idle q (elsewhere a bs) h' u n r = cc
    occur-Represents env (loaded true over) q call_install h' u n (later, l) = reach env n (
        of_eq (install_installed win d h' u storage (ap (λ (x : Memhook). x.flags.installed) l.2))
          (later, l))
    occur-Represents env (loaded true []) q call_remove h' u n (later, l) =
        reach env n
          (remove-spent win laws d opcode reads storage code h₀ h w can trampoline head env h' u l)
    occur-Represents env (loaded true (other ∷ over)) q call_remove h' u n (later, l) =
        reach env n (
          Returns.mono
            (remove-Loaded win laws d opcode reads storage code h₀ h w can trampoline not_broken
              executable env other over h' u later.0 l)
            λ x v l'. (later, l'))
    occur-Represents env (loaded false over) q call_install h' u n (later, l) = reach env n (
        Returns.mono
          (install-Loaded win laws d opcode reads storage code h₀ h w can trampoline not_broken
            executable env over h' u l)
          λ x v l'. (later, l'))
    occur-Represents env (loaded false over) q call_remove h' u n (later, l) = reach env n (
        of_eq (remove_not_installed win d h' u (ap (λ (x : Memhook). x.flags.installed) l.2))
          (later, l))
    occur-Represents env (loaded on over) q (bury other) h' u n (later, l) =
        allowed env (loaded on (other ∷ over)) (is_other code h.call_abs other) n λ other_hook.
          returns (
            (other_hook, later),
            overwritten-Loaded win laws d opcode reads storage code h₀ h w can trampoline fits env
                on over (other ∷ over) h' u l,
          )
    occur-Represents env (loaded on []) q (unbury below) h' u n r = cc
    occur-Represents env (loaded on (x ∷ over)) q (unbury below) h' u n (later, l) =
        allowed env (loaded on over) (below == leads code over) n λ found. returns (
          later.1,
          rw ((==_iff _ _).0 found) (
              overwritten-Loaded win laws d opcode reads storage code h₀ h w can trampoline fits env
                on (x ∷ over) over h' u l),
        )
    occur-Represents env (loaded on over) q (elsewhere p bs) h' u n (later, l) =
        allowed (after env (elsewhere p bs ∷ [])) (loaded on over)
          (is_elsewhere storage code h p (length bs)) n
          λ free. returns (
            later,
            written-Loaded win laws d opcode reads storage code h₀ h w can trampoline fits env on
                over h' u p bs free l,
          )
    occur-Represents env spent q call_install h' u n (bytes, inert, inert', freed) =
        reach env n (of_eq (inert storage u) (bytes, inert, inert', freed))
    occur-Represents env spent q call_remove h' u n (bytes, inert, inert', freed) =
        reach env n (of_eq (inert' u) (bytes, inert, inert', freed))
    occur-Represents env spent q (bury other) h' u n r = cc
    occur-Represents env spent q (unbury below) h' u n r = cc
    occur-Represents env spent q (elsewhere p bs) h' u n (bytes, inert, inert', freed) =
        reach (after env (elsewhere p bs ∷ [])) n (
          returns (
            λ a x y.
                ground (arith, overlay_at u.bytes p bs a, overlay_at env.bytes p bs a, bytes a),
            inert,
            inert',
            freed,
          ))

    -- So does a list of events.
    pub run-Represents :
        (env : World Kernel) (es : List Event) (p q : Phase) (h' : Memhook) (u : World Kernel)
        → follow storage code h p es ≡ some q
        → Holds env p h' u
        → Returns (Holds (after env es) q) (run win d opcode storage code es h' u)
    run-Represents env [] p q h' u n r = reach env n (returns r)
    run-Represents env (e ∷ es) p q h' u n r =
        let (p', now, rest) = follow_rest storage code h (next storage code h p e) es q n in
        Returns.bind (occur-Represents env p p' e h' u now r) λ h'' v r'.
          subst
            (λ f.
              Returns (Holds (record env { bytes = f }) q) (run win d opcode storage code es h'' v))
            (outside-cons env.bytes e es)
            (run-Represents (after env (e ∷ [])) es p' q h'' v rest r')
