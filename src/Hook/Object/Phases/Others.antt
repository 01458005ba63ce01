-- ===== src/Hook/Object/Phases/Others.antt =====
-- Another memhook on the same function: its `install` and `remove` are to the first hook what a
-- later hook does in its state machine.
use memwrapper.Base.{
  ℕ, ◌+◌, ◌≤◌, ◌≡◌, refl, sym, ap, ◌∙◌, Bool, true, false, List, ◌∷◌, arith, Apart, length, within,
  if◌then◌else◌, ◌==◌, replicate, ◌-◌, Bool-cases, inl, inr,
}
use mathlib.Core.Path.{subst}
use memwrapper.Machine.{World, slice}
use memwrapper.Machine.Overlay.{slice_parts, slice-ext}
use memwrapper.Windows.{Windows, WindowsLaws}
use memwrapper.Detail.{byteof}
use memwrapper.Llmo.Unprotect.Scope.{Same, Same-sym, Same-refl}
use memwrapper.Allocator.Fresh.{grown, page-Apart, page_in_space}
use memwrapper.Hook.Disassembler.{Disassembler}
use memwrapper.Hook.Object.{Memhook, jump_size, nop_opcode}
use memwrapper.Hook.Object.Access.{
  Accessible, Accessible-Same, Accessible-alloc, Accessible-Released,
}
use memwrapper.Hook.Object.Patched.{redirected_bytes}
use memwrapper.Hook.Object.Placed.{Placed}
use memwrapper.Hook.Object.Restored.{Restored}
use memwrapper.Hook.Object.Reads.{jump_to, Reads}
use memwrapper.Hook.Object.Saved.{Installable, cleared}
use memwrapper.Hook.Object.Phases.{is_elsewhere, is_other, leads}
use memwrapper.Hook.Object.Phases.Changes.{Loaded-change, Loaded-outside, free_of_owned, owned}
use memwrapper.Hook.Object.Phases.Represents.{Loaded}

-- A hook on the same function covers the jump that stands there; what it saves goes where the first
-- hook has nothing, and its page is not where the first hook's call led.
pub record IsNext (storage code : ℕ) (h : Memhook) (storage' code' : ℕ) (b : Memhook) : Type 0 where
  pub same : b.hookee ≡ h.hookee
  pub covered : b.size ≡ 5
  pub store : is_elsewhere storage code h storage' 5 ≡ true
  pub no_call : (code' == h.call_abs) ≡ false

-- What is new in `v` is the environment's; what the hook has saved is still to come back.
abbrev pub renewed : {K : Type 0} → Memhook → (env v : World K) → World K
renewed h env v = record v {
  bytes = λ a. if within h.hookee h.size a then env.bytes a else v.bytes a;
}

module _ (win : Windows) (laws : WindowsLaws win) (d : Disassembler) (opcode : ℕ)
    (reads : Reads d opcode) (storage code : ℕ) (h₀ h : Memhook) (w : World win.Kernel)
    (can : Installable win storage code h w) (trampoline : List ℕ)
    (fits : length trampoline ≤ 4096) where
  open win use {Kernel}

  abbrev Loads : (env : World Kernel) (on : Bool) (over : List ℕ) → Memhook → World Kernel → Type 0
  Loads = Loaded win laws d opcode reads storage code h₀ h w can trampoline

  module _ (storage' code' : ℕ) (b : Memhook) (u : World Kernel)
      (can' : Installable win storage' code' b u) (next : IsNext storage code h storage' code' b)
      (access : Accessible win storage code h u.kernel) where
    new_page-Apart : (q m : ℕ) → win.committed u.kernel q m ≡ true → Apart code' 4096 q m
    new_page-Apart = page-Apart win laws (cleared storage' b.size u) code' can'.new

    -- The new page does not meet what is the first hook's.
    disjoint_hookee : Apart code' 4096 h.hookee h.size
    disjoint_hookee = new_page-Apart h.hookee h.size access.target.commit

    disjoint_storage : Apart code' 4096 storage h.size
    disjoint_storage = new_page-Apart storage h.size access.saved

    disjoint_page : Apart code' 4096 code 4096
    disjoint_page = new_page-Apart code 4096 access.page.commit

    page-is_elsewhere : is_elsewhere storage code h code' 4096 ≡ true
    page-is_elsewhere = ground (arith, disjoint_hookee, disjoint_storage, disjoint_page)

    pub next-is_other : is_other code h.call_abs code' ≡ true
    next-is_other = ground (
      arith,
      page_in_space win laws (cleared storage' b.size u) code' can'.new,
      disjoint_page,
      next.no_call,
    )

    -- Nothing of the first hook is the other's but the instruction at the hooked function.
    not_others :
        (a : ℕ)
        → owned storage code h a ≡ true
        → within h.hookee 5 a ≡ false
        → owned storage' code' b a ≡ false
    not_others a own out =
        let x : within storage' 5 a ≡ false =
          free_of_owned storage code h storage' 5 a next.store own in
        let y : within code' 4096 a ≡ false =
          free_of_owned storage code h code' 4096 a page-is_elsewhere own in
        let z : within b.hookee 5 a ≡ false = ap (λ p. within p 5 a) next.same ∙ out in
        rw (next.covered, x, y, z) refl

    -- The other hook's installation writes its jump over the first one's.
    pub installed-Loaded_under :
        (env : World Kernel) (on : Bool) (over : List ℕ) (h' : Memhook) (v : World Kernel)
        (trampoline' : List ℕ)
        → Loads env on over h' u
        → Placed storage' code' b trampoline'
            (redirected_bytes opcode code' b.hookee b.size)
            u.bytes
            v.bytes
        → Same win (grown win (cleared storage' b.size u)) v.kernel
        → Loads (renewed h env v) on (code' ∷ over) h' v
    unfolding byteof
    installed-Loaded_under env on over h' v trampoline' l m s =
        Loaded-change win laws d opcode reads storage code h₀ h w can trampoline fits env
          (renewed h env v) on over (code' ∷ over) h' u v l
          (subst (λ p. slice v.bytes p 5 ≡ jump_to opcode code' p) next.same
            (slice_parts v.bytes b.hookee (jump_to opcode code' b.hookee)
              (replicate (b.size - jump_size) nop_opcode) m.patched).0)
          (λ a own out. ground (arith, m.elsewhere a, not_others a own out)) (λ a i. rw i refl)
          (λ a out. ground (arith, out)) (Same-refl win v.kernel)
          (Accessible-Same win storage code h
            (Accessible-alloc win laws storage code h 4096 _ can.enough access) s)

    -- Its removal puts back what the environment, as it sees it, has at the hooked function.
    pub restored-Loaded :
        (opcode' : ℕ) (reads' : Reads d opcode') (env env' : World Kernel) (on on' : Bool)
        (over below : List ℕ) (h' b' b'' : Memhook) (b₀ : Memhook) (v x : World Kernel)
        (trampoline' : List ℕ) (short' : length trampoline' ≤ 4096)
        → Loads env on (code' ∷ over) h' v
        → Loaded win laws d opcode' reads' storage' code' b₀ b u can' trampoline' env' on' below b'
            v
        → slice env'.bytes h.hookee 5 ≡ jump_to opcode (leads code over) h.hookee
        → Restored win laws d opcode' reads' storage' code' b u can' env' b'' x
        → Loads (renewed h env x) on over h' x
    restored-Loaded opcode' reads' env env' on on' over below h' b' b'' b₀ v x trampoline' short' l
          l' jump (bytes, _, _, released) =
        Loaded-change win laws d opcode reads storage code h₀ h w can trampoline fits env
          (renewed h env x) on (code' ∷ over) over h' v x l
          (slice-ext x.bytes env'.bytes h.hookee h.hookee 5 (λ i lt.
              bytes (h.hookee + i) (ground (arith, next.covered, next.store, can.enough))
                (ground (arith, disjoint_hookee, can.enough)))
            ∙ jump)
          (λ a own out.
            let theirs : owned storage' code' b a ≡ false = not_others a own out in
            bytes a (ground (arith, theirs)) (ground (arith, theirs))
            ∙ sym (
                Loaded-outside win laws d opcode' reads' storage' code' b₀ b u can' trampoline'
                  short' env' on' below b' v l' a theirs))
          (λ a i. rw i refl) (λ a out. ground (arith, out)) (Same-refl win x.kernel)
          (Accessible-Released win laws storage code h code' can.enough l'.6.region disjoint_hookee
            disjoint_storage (λ e. omega (arith, disjoint_page, e)) disjoint_page released
            (Accessible-Same win storage code h (Accessible-Same win storage code h l.6 l.5)
              (Same-sym win l'.5)))

    -- When the first hook is switched, the other one stays as it is.
    pub switched-Loaded_over :
        (opcode' : ℕ) (reads' : Reads d opcode') (env env' : World Kernel) (on on' on₂ : Bool)
        (over over' : List ℕ) (h' h'' b' : Memhook) (b₀ : Memhook) (v x : World Kernel)
        (trampoline' : List ℕ) (short' : length trampoline' ≤ 4096)
        → Loads env on over h' v
        → Loads env on' over h'' x
        → Loaded win laws d opcode' reads' storage' code' b₀ b u can' trampoline' env' on₂ over' b'
            v
        → Loaded win laws d opcode' reads' storage' code' b₀ b u can' trampoline'
            (renewed b env' x)
            on₂
            over'
            b'
            x
    switched-Loaded_over opcode' reads' env env' on on' on₂ over over' h' h'' b' b₀ v x trampoline'
          short' l m l' =
        Loaded-change win laws d opcode' reads' storage' code' b₀ b u can' trampoline' short' env'
          (renewed b env' x) on₂ over' over' b' v x l'
          (subst (λ p. slice x.bytes p 5 ≡ slice v.bytes p 5) (sym next.same)
              (m.4.jump ∙ sym (l.4.jump))
            ∙ l'.4.jump)
          (λ a own out.
            let mine : owned storage code h a ≡ false = not_first a own out in
            Loaded-outside win laws d opcode reads storage code h₀ h w can trampoline fits env on'
              over h'' x m a mine
            ∙ sym (
                Loaded-outside win laws d opcode reads storage code h₀ h w can trampoline fits env
                  on over h' v l a mine))
          (λ a i. rw i refl) (λ a out. ground (arith, out)) (Same-refl win x.kernel)
          (Accessible-Same win storage' code' b
            (Accessible-Same win storage' code' b (Accessible-Same win storage' code' b l'.6 l'.5)
              (Same-sym win l.5))
            m.5)
      where
        not_first :
            (a : ℕ)
            → owned storage' code' b a ≡ true
            → within b.hookee 5 a ≡ false
            → owned storage code h a ≡ false
        not_first a own out = elim (Bool-cases (owned storage code h a)) [
          | inl mine ↦
              absurd (cc (own, not_others a mine (ap (λ p. within p 5 a) (sym next.same) ∙ out)))
          | inr mine ↦ mine
        ]
