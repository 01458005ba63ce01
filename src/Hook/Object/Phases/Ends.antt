-- ===== src/Hook/Object/Phases/Ends.antt =====
-- The destructor of a hook, and its `call`, at any point of its life.
use memwrapper.Base.{
  ℕ, ◌+◌, ◌≤◌, ◌≡◌, refl, sym, ap, ◌∙◌, Bool, true, false, some, List, ◌++◌, length, arith, fun_ext,
  Bool-cases, inl, inr, Apart, [], ◌∷◌, none,
}
use memwrapper.Machine.{Bytes, overlay, M, World, slice, ◌>>=◌, pure, >>=_assoc}
use memwrapper.Machine.Overlay.{slice_parts, slice-ext}
use memwrapper.Machine.Returns
use memwrapper.Machine.Returns.{Returns, returns}
use memwrapper.Windows.{Windows, WindowsLaws}
use memwrapper.Detail.{byteof, CallingConvention, call_function}
use memwrapper.Hook.Disassembler.{Disassembler, DisassemblerLaws}
use memwrapper.Hook.Object.{
  Memhook, remove, destroy, call, call_address, jump_opcode, original_offset,
}
use memwrapper.Hook.Object.Cycle.{reads_jump}
use memwrapper.Hook.Object.Head.{head_bytes}
use memwrapper.Hook.Object.Installed.{IsNew}
use memwrapper.Hook.Object.Reads.{Reads}
use memwrapper.Hook.Object.Saved.{Installable, cleared}
use memwrapper.Allocator.Fresh.{grown}
use mathlib.Core.Path.{subst}
use memwrapper.Hook.Object.Written.{trampoline_bytes, Relocates}
use memwrapper.Hook.Object.Phases.{
  Phase, idle, loaded, spent, Event, call_install, call_remove, bury, unbury, elsewhere, outside,
  next, follow, occur, run,
}
use memwrapper.Hook.Object.Phases.Refines.{follow_rest}
use memwrapper.Hook.Object.Phases.Represents.{Represents, Loaded, hookee-Apart}
use memwrapper.Hook.Object.Phases.Lives.{environment, run-Represents_code}
use memwrapper.Hook.Object.Phases.Runs.{destination, trampoline}

-- Nothing leads to the hooker.
abbrev pub IsOff : Phase → Type 0
IsOff idle = Unit
IsOff (loaded on over) = on ≡ false
IsOff spent = Unit

-- A last `remove` leads from any phase to one that is off.
last_remove :
    (storage code : ℕ) (h : Memhook) (es : List Event) (p q : Phase)
    → follow storage code h p es ≡ some q
    → (q' : Phase) × IsOff q' × (follow storage code h p (es ++ (call_remove ∷ [])) ≡ some q')
last_remove storage code h [] idle q n = (idle, tt, refl)
last_remove storage code h [] (loaded true []) q n = (spent, tt, refl)
last_remove storage code h [] (loaded true (other ∷ over)) q n =
    (loaded false (other ∷ over), refl, refl)
last_remove storage code h [] (loaded false over) q n = (loaded false over, refl, refl)
last_remove storage code h [] spent q n = (spent, tt, refl)
last_remove storage code h (e ∷ es) p q n =
    let (p', now, rest) = follow_rest storage code h (next storage code h p e) es q n in
    let (q', off, all) = last_remove storage code h es p' q rest in
    (
      q',
      off,
      ap (λ o. elim o [ none ↦ none | some x ↦ follow storage code h x (es ++ (call_remove ∷ [])) ])
            now
          ∙ all,
    )

-- A last `remove` is no write of other code.
outside-last : (f : Bytes) (es : List Event) → outside f (es ++ (call_remove ∷ [])) ≡ outside f es
outside-last f [] = refl
outside-last f (call_install ∷ es) = outside-last f es
outside-last f (call_remove ∷ es) = outside-last f es
outside-last f (bury other ∷ es) = outside-last f es
outside-last f (unbury below ∷ es) = outside-last f es
outside-last f (elsewhere p bs ∷ es) = outside-last (overlay f p bs) es

module _ (win : Windows) (d : Disassembler) (opcode storage code : ℕ) where
  open win use {Kernel}

  -- The destructor is a last `remove` of which the object is dropped.
  run-destroy :
      (es : List Event) (h : Memhook)
      → (run win d opcode storage code es h >>= destroy win d)
        ≡ (run win d opcode storage code (es ++ (call_remove ∷ [])) h >>= λ _. pure tt)
  unfolding destroy
  run-destroy [] h = sym (>>=_assoc (remove win d h) pure (λ _. pure tt))
  run-destroy (e ∷ es) h =
      >>=_assoc (occur win d opcode storage code e h) (run win d opcode storage code es)
        (destroy win d)
      ∙ ap (λ k. occur win d opcode storage code e h >>= k) (fun_ext (run-destroy es))
      ∙ sym (
          >>=_assoc (occur win d opcode storage code e h)
            (run win d opcode storage code (es ++ (call_remove ∷ []))) (λ _. pure tt))

module _ (win : Windows) (laws : WindowsLaws win) (d : Disassembler) (dis : DisassemblerLaws d)
    (storage code : ℕ) (h : Memhook) (w : World win.Kernel) (new : IsNew h)
    (can : Installable win storage code h w) (bs : List ℕ) (r : Relocates d w.bytes code h bs) where
  open win use {Kernel}

  -- Let a new hook that may be installed, on instructions of which the first is no call and which
  -- are rewritten from the covered bytes alone, go through any calls of `install` and `remove`,
  -- with any number of later hooks that come and go in between, the last one first, and with other
  -- code that writes where the hook has nothing, which the state machine follows from its first
  -- phase, and then be destroyed. All that returns, and memory is in the end as a phase says in
  -- which nothing leads to the hooker.
  pub run-destroy-IsOff :
      (es : List Event) (q : Phase)
      → follow storage code h idle es ≡ some q
      → Returns
          (λ _ v.
            (q' : Phase) × (x : Memhook) × IsOff q'
            × Represents win laws d jump_opcode
                (reads_jump d dis)
                storage
                code
                h
                h
                w
                can
                (trampoline_bytes h code bs)
                (environment win storage h w es)
                q'
                x
                v)
          ((run win d jump_opcode storage code es h >>= destroy win d) w)
  run-destroy-IsOff es q n =
      let (q', off, all) = last_remove storage code h es idle q n in
      rw (ap (λ m. m w) (run-destroy win d jump_opcode storage code es h)) (
        Returns.bind
          (run-Represents_code win laws d dis storage code h w new can bs r
            (es ++ (call_remove ∷ [])) q' all)
          λ x v holds. returns (
            q',
            x,
            off,
            subst
                (λ f.
                  Represents win laws d jump_opcode (reads_jump d dis) storage code h h w can
                    (trampoline_bytes h code bs)
                    (record { bytes = f; kernel = grown win (cleared storage h.size w) }) q' x v)
                (outside-last w.bytes es) holds,
          ))

module _ (win : Windows) (laws : WindowsLaws win) (d : Disassembler) (opcode : ℕ)
    (reads : Reads d opcode) (storage code : ℕ) (h₀ h : Memhook) (w : World win.Kernel)
    (can : Installable win storage code h w) (rest : List ℕ) {V : Type 0}
    (invoke : CallingConvention → ℕ → List V → M win.Kernel V) where
  open win use {Kernel}

  -- In a loaded phase, on or off, buried or not, `call` calls the place to which the trampoline
  -- leads when it is off: the call's old target, or the code behind the trampoline's head. There
  -- stands what an installation wrote behind the head, if it fits into the page.
  pub call-Loaded :
      (env : World Kernel) (on : Bool) (over : List ℕ) (h' : Memhook) (u : World Kernel)
      (convention : CallingConvention) (args : List V)
      → length rest ≤ 4080
      → Loaded win laws d opcode reads storage code h₀ h w can
          (trampoline win laws d opcode reads storage code h₀ h w can rest)
          env
          on
          over
          h'
          u
      → (call win d invoke convention h' args u
          ≡ call_function invoke convention (destination h code false) args u)
        × (slice u.bytes (code + original_offset) (length rest) ≡ rest)
  unfolding call call_address byteof
  call-Loaded env on over h' u convention args le (o, g, e, m, st, _, _) = (
    rw e (elim (Bool-cases h.flags.call_instruction) [ inl c ↦ rw c refl | inr p ↦ rw p refl ]),
    slice-ext u.bytes g (code + original_offset) (code + original_offset) (length rest)
          (λ i lt. st.elsewhere _ (ground (arith, apart, le)) (ground arith))
        ∙ (slice_parts g code (head_bytes h.return_address h.hooker code) rest m.trampoline).1,
  )
    where
      apart : Apart code 4096 h.hookee 5
      apart =
          hookee-Apart win laws d opcode reads storage code h₀ h w can
            (trampoline win laws d opcode reads storage code h₀ h w can rest)
