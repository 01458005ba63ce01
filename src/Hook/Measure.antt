-- ===== src/Hook/Measure.antt =====
-- The constructor of memhook: how many bytes of whole instructions the hook will cover.
use memwrapper.Base.{
  ℕ, ◌-◌, zero, suc, ◌+◌, ◌≤◌, ◌<◌, ◌≡◌, ◌⊎◌, refl, ap, ◌∙◌, Bool, true, false, none, some, arith,
  leb, Bool-cases, inl, inr,
}
use Prim.Native.Nat.{min}
use memwrapper.Machine.{Bytes, World}
use mathlib.Core.Path.{subst}
use memwrapper.Machine.Returns
use memwrapper.Machine.Returns.{Returns, returns}
use memwrapper.Machine.Run.{CanRead}
use memwrapper.Windows.{Windows, cpu}
use memwrapper.Hook.Disassembler.{
  Disassembler, DisassemblerLaws, disassemble, disassemble-returns, disassemble-cases,
  disassemble-fault, has, f_error,
}
use memwrapper.Hook.Object.{Memhook, jump_size, measure, construct}

-- The `n` bytes from `p` on are whole instructions that the disassembler accepts.
pub data Listing (d : Disassembler) (f : Bytes) (p : ℕ) : ℕ → Type 0 where
  nil : Listing d f p 0
  snoc :
      {n m : ℕ}
      → Listing d f p n
      → has f_error (d f (p + n)) ≡ false
      → m ≡ n + (d f (p + n)).len
      → Listing d f p m

module _ (d : Disassembler) (f : Bytes) (p : ℕ) where
  -- Why the loop stops with a size: it covers the jump, or the next instruction is refused.
  abbrev pub Stopped : ℕ → Bool → Type 0
  Stopped size broken =
      ((broken ≡ false) × (jump_size ≤ size))
      ⊎ ((broken ≡ true) × (size < jump_size) × (has f_error (d f (p + size)) ≡ true))

  pub record Measured (size : ℕ) (broken : Bool) : Type 0 where
    pub listing : Listing d f p size
    pub small : size ≤ 19
    pub stopped : Stopped size broken

module _ (win : Windows) (d : Disassembler) (laws : DisassemblerLaws d) (p : ℕ)
    (w : World win.Kernel) where
  open win use {Kernel}

  -- What the loop finds, and that it changes nothing.
  abbrev pub Found : ℕ × Bool → World Kernel → Type 0
  Found (size, broken) v = Measured d w.bytes p size broken × (v ≡ w)

  -- A fault of the engine on one of the instructions that are read, if it may fault.
  abbrev FaultsOr : (may_fault : Type 0) → ℕ → Type 0
  FaultsOr may_fault n =
      (may_fault × (disassemble win d (p + n) w ≡ none))
      ⊎ (disassemble win d (p + n) w ≡ some (d w.bytes (p + n), w))

  pub measure-Measured :
      (may_fault : Type 0)
      → ((n : ℕ) → n < 5 → FaultsOr may_fault n)
      → (fuel n : ℕ) → 5 < fuel + min n 5
      → n ≤ 19
      → Listing d w.bytes p n
      → (may_fault × (measure win d fuel (p + n) n w ≡ none))
        ⊎ Returns Found (measure win d fuel (p + n) n w)
  unfolding measure
  measure-Measured may_fault r zero n enough small l = absurd (omega arith)
  measure-Measured may_fault r (suc fuel) n enough small l = elim (Bool-cases (leb jump_size n)) [
    | inl done ↦ rw done (
        inr (
          returns
            (record { listing = l; small = small; stopped = inl (refl, ground arith) }, refl)))
    | inr more ↦ elim (r n (ground (arith, more))) [
      | inl (may, fault) ↦ rw (more, fault) (inl (may, refl))
      | inr read ↦ elim (Bool-cases (has f_error (d w.bytes (p + n)))) [
        | inl bad ↦
            rw (more, read, bad)
              (inr (
                returns (
                  record { listing = l; small = small; stopped = inr (refl, ground arith, bad) },
                  refl,
                )))
        | inr good ↦
            let len = (d w.bytes (p + n)).len in
            rw (more, read, good)
              (subst
                (λ q.
                  (may_fault × (measure win d fuel q (n + len) w ≡ none))
                  ⊎ Returns Found (measure win d fuel q (n + len) w))
                (omega arith)
                (measure-Measured may_fault r fuel (n + len)
                  (ground (arith, laws.len_pos w.bytes (p + n)))
                  (ground (arith, more, laws.len-le w.bytes (p + n))) (snoc l good refl)))
      ]
    ]
  ]

-- The size and the flag of a hook are those of the instructions, and it is not installed.
pub record Constructed (d : Disassembler) (f : Bytes) (hookee : ℕ) (h : Memhook) : Type 0 where
  pub measured : Measured d f hookee h.size h.flags.listing_broken
  pub at_hookee : h.hookee ≡ hookee
  pub not_installed : h.flags.installed ≡ false
  pub no_call : h.flags.call_instruction ≡ false
  pub no_original : h.original_code ≡ none
  pub no_trampoline : h.trampoline_code ≡ none

module _ (win : Windows) (d : Disassembler) (hookee hooker return_address : ℕ)
    (w : World win.Kernel) (laws : DisassemblerLaws d) where
  open win use {Kernel}

  abbrev AsConstructed : Memhook → World Kernel → Type 0
  AsConstructed h v = Constructed d w.bytes hookee h × (v ≡ w)

  construct-AsConstructed :
      (may_fault : Type 0)
      → ((n : ℕ) → n < 5 → FaultsOr win d laws hookee w may_fault n)
      → (may_fault × (construct win d hookee hooker return_address w ≡ none))
        ⊎ Returns AsConstructed (construct win d hookee hooker return_address w)
  unfolding construct
  construct-AsConstructed may_fault r =
      elim (subst
        (λ q.
          (may_fault × (measure win d 6 q 0 w ≡ none))
          ⊎ Returns (Found win d laws hookee w) (measure win d 6 q 0 w))
        start
        (measure-Measured win d laws hookee w may_fault r 6 0 (omega arith) (omega arith) nil)) [
          | inl (may, fault) ↦ rw fault (inl (may, refl))
          | inr found ↦ inr (
              Returns.bind found λ (size, broken) v (m, same). returns (
                record {
                  measured = m;
                  at_hookee = refl;
                  not_installed = refl;
                  no_call = refl;
                  no_original = refl;
                  no_trampoline = refl;
                },
                same,
              ))
        ]
    where
      start : hookee + 0 ≡ hookee
      start = omega arith

  -- The constructor faults, or returns as below.
  pub construct-cases :
      (construct win d hookee hooker return_address w ≡ none)
      ⊎ Returns AsConstructed (construct win d hookee hooker return_address w)
  construct-cases =
      elim (construct-AsConstructed (Unit {0}) λ n lt.
        elim (disassemble-cases win d (hookee + n) w) [
          | inl fault ↦ inl (tt, fault)
          | inr read ↦ inr read
        ]) [ inl (_, fault) ↦ inl fault | inr made ↦ inr made ]

-- Where the 36 bytes from the function on may be read, of which the engine reads no more, the
-- constructor returns, whatever the bytes are, and changes nothing. The size covers whole
-- instructions that the disassembler accepts, 19 bytes at most; the listing is not marked broken
-- and the size covers a jump, or it is and the next instruction is one that is refused. The hook is
-- not installed, and has no saved bytes and no trampoline.
pub construct-Measured :
    (win : Windows) (d : Disassembler) (hookee hooker return_address : ℕ) (w : World win.Kernel)
    → DisassemblerLaws d
    → CanRead (cpu win) w.kernel hookee 36
    → Returns
        (λ h v. Constructed d w.bytes hookee h × (v ≡ w))
        (construct win d hookee hooker return_address w)
construct-Measured win d hookee hooker return_address w laws r =
    elim (construct-AsConstructed win d hookee hooker return_address w laws ⊥ λ n lt. inr (
      disassemble-returns win d (hookee + n) w λ i l.
        ap (λ q. win.readable (win.protection w.kernel q)) {x = hookee + n + i} (omega arith)
        ∙ r (n + i) (omega (arith, lt, l, laws.extent-le w.bytes (hookee + n))))) [
          | inl (never, _) ↦ absurd never
          | inr made ↦ made
        ]

-- On a function whose first byte may not be read the constructor faults: it disassembles it before
-- it asks whether it is executable.
pub construct-fault :
    (win : Windows) (d : Disassembler) (hookee hooker return_address : ℕ) (w : World win.Kernel)
    → DisassemblerLaws d
    → win.readable (win.protection w.kernel hookee) ≡ false
    → construct win d hookee hooker return_address w ≡ none
unfolding construct measure
construct-fault win d hookee hooker return_address w laws out =
    rw
      (disassemble-fault win d hookee w ((d w.bytes hookee).extent - 1)
        (omega (arith, laws.extent_pos w.bytes hookee)) out)
      refl
