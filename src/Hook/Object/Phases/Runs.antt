-- ===== src/Hook/Object/Phases/Runs.antt =====
-- Where the processor goes in a loaded phase, when it comes to the trampoline or to the hooked
-- function.
use memwrapper.Base.{
  ℕ, ◌∷◌, suc, replicate, ◌+◌, ◌≡◌, refl, sym, ap, ◌∙◌, Bool, true, false, some, List, [], ◌++◌,
  arith, Apart, ◌<◌, word_mod, if◌then◌else◌,
}
use memwrapper.Machine.{Bytes, World, slice}
use memwrapper.Machine.Overlay.{slice_parts}
use memwrapper.Windows.{Windows, WindowsLaws}
use memwrapper.Detail.{get_relative_address, jump_oplen, byteof}
use memwrapper.Detail.Addresses.{get_relative_address-lt}
use memwrapper.Asm.{Registers}
use memwrapper.Asm.Decoder
use memwrapper.Asm.Encoding.{jmp_bytes, decode-jmp_bytes}
use memwrapper.Asm.Processor.{Processor, execute, step, steps, step-execute, steps-suc}
use memwrapper.Asm.Nops.{nop_byte}
use memwrapper.Hook.Disassembler.{Disassembler}
use memwrapper.Hook.Object.{Memhook, hooker_offset, original_offset, jump_opcode}
use memwrapper.Hook.Object.Entry.{IsEntry, Entered}
use memwrapper.Hook.Object.Head.{Begins, Begins-ext, head_bytes, head_parts}
use memwrapper.Hook.Object.Leads.{jump-Entered, nops-Entered, jump_target}
use memwrapper.Hook.Object.Reads.{Reads}
use memwrapper.Hook.Object.Saved.{Installable, cleared}
use memwrapper.Allocator.Fresh.{page_in_space}
use memwrapper.Hook.Object.Phases.Represents.{Loaded, hookee-Apart}

-- Where the trampoline leads: to the hooker, or else past it, to the original code behind the head
-- or, for a call, to its old target.
abbrev pub destination : Memhook → (code : ℕ) → (on : Bool) → ℕ
destination h code on =
    if on then h.hooker else if h.flags.call_instruction then h.call_abs else code + original_offset

abbrev pub processor_at : (eip : ℕ) → (Registers → ℕ) → Bytes → Processor
processor_at eip registers f = record { registers = registers; eip = eip; bytes = f }

-- In how many steps.
abbrev pub arrival : Memhook → (on : Bool) → ℕ
arrival h on = if on then 5 else if h.flags.call_instruction then 5 else 9

-- The five bytes behind the head's first instructions lead where they should.
switch-Entered :
    (on call : Bool) (ra hooker call_abs : ℕ) (s : Processor)
    → Begins s.bytes ra s.eip
    → slice s.bytes (s.eip + hooker_offset) 5 ≡ (
        if on
        then jmp_bytes (get_relative_address hooker (s.eip + hooker_offset) jump_oplen)
        else if call
        then jmp_bytes (get_relative_address call_abs (s.eip + hooker_offset) jump_oplen)
        else replicate 5 nop_byte)
    → IsEntry ra (if on then hooker else if call then call_abs else s.eip + original_offset) s
    → (s' : Processor) × (steps (if on then 5 else if call then 5 else 9) s ≡ some s')
      × Entered ra (if on then hooker else if call then call_abs else s.eip + original_offset) s s'
switch-Entered true call ra hooker call_abs s b h e = jump-Entered ra hooker s e b h
switch-Entered false true ra hooker call_abs s b h e = jump-Entered ra call_abs s e b h
switch-Entered false false ra hooker call_abs s b h e = nops-Entered ra _ s e b refl h

-- A near jump leads to its target.
pub step-jump :
    (to from : ℕ) (registers : Registers → ℕ) (f : Bytes)
    → to < word_mod
    → slice f from 5 ≡ jmp_bytes (get_relative_address to from jump_oplen)
    → step (processor_at from registers f) ≡ some (processor_at to registers f)
unfolding execute byteof
step-jump to from registers f lt stands =
    step-execute (jmp_bytes rel32) (Decoder.jump rel32) (processor_at from registers f) stands
      (λ rest. decode-jmp_bytes rel32 rest (get_relative_address-lt to from jump_oplen))
      (omega arith)
    ∙ ap (λ n. some (processor_at n registers f)) (jump_target to from lt)
  where
    rel32 : ℕ
    rel32 = get_relative_address to from jump_oplen

module _ (win : Windows) (laws : WindowsLaws win) (d : Disassembler) (opcode : ℕ)
    (reads : Reads d opcode) (storage code : ℕ) (h₀ h : Memhook) (w : World win.Kernel)
    (can : Installable win storage code h w) (rest : List ℕ) where
  open win use {Kernel}

  abbrev pub trampoline : List ℕ
  trampoline = head_bytes h.return_address h.hooker code ++ rest

  -- In a loaded phase, a processor that comes to the trampoline, where nothing wraps and stack,
  -- code and context do not meet, goes on to the hooker if the phase is on, and otherwise to the
  -- original code behind the head or, for a call, to its old target. It gets there in 5 or 9
  -- steps, with the same registers and with the return address saved, and no other memory has
  -- changed but the word below the stack's top.
  pub Loaded-Entered :
      (env : World Kernel) (on : Bool) (over : List ℕ) (h' : Memhook) (u : World Kernel)
      (registers : Registers → ℕ)
      → Loaded win laws d opcode reads storage code h₀ h w can trampoline env on over h' u
      → IsEntry h.return_address (destination h code on) (processor_at code registers u.bytes)
      → (s' : Processor) × (steps (arrival h on) (processor_at code registers u.bytes) ≡ some s')
        × Entered h.return_address (destination h code on) (processor_at code registers u.bytes) s'
  unfolding byteof
  Loaded-Entered env on over h' u registers (o, g, _, m, st, _, _) e =
      switch-Entered on h.flags.call_instruction h.return_address h.hooker h.call_abs
        (processor_at code registers u.bytes)
        (Begins-ext g u.bytes h.return_address code
          (λ a i. sym (st.elsewhere a (ground (arith, i, apart)) (ground (arith, i)))) begins)
        st.switch e
    where
      apart : Apart code 4096 h.hookee 5
      apart = hookee-Apart win laws d opcode reads storage code h₀ h w can trampoline

      begins : Begins g h.return_address code
      begins =
          (head_parts g h.return_address h.hooker code
            (slice_parts g code (head_bytes h.return_address h.hooker code) rest m.trampoline).0).0

  -- The jump at the hooked function leads to the trampoline.
  step_to_trampoline :
      (env : World Kernel) (on : Bool) (h' : Memhook) (u : World Kernel) (registers : Registers → ℕ)
      → opcode ≡ jump_opcode
      → Loaded win laws d opcode reads storage code h₀ h w can trampoline env on [] h' u
      → step (processor_at h.hookee registers u.bytes) ≡ some (processor_at code registers u.bytes)
  step_to_trampoline env on h' u registers jumps (o, g, _, m, st, _, _) =
      step-jump code h.hookee registers u.bytes
        (omega (arith, page_in_space win laws (cleared storage h.size w) code can.new))
        (st.jump ∙ ap (λ b. b ∷ byteof 4 (get_relative_address code h.hookee jump_oplen)) jumps)

  -- When no later hook is there, a processor that comes to the hooked function itself gets to the
  -- same place one step later, in the same way.
  pub hookee-Entered :
      (env : World Kernel) (on : Bool) (h' : Memhook) (u : World Kernel) (registers : Registers → ℕ)
      → opcode ≡ jump_opcode
      → Loaded win laws d opcode reads storage code h₀ h w can trampoline env on [] h' u
      → IsEntry h.return_address (destination h code on) (processor_at code registers u.bytes)
      → (s' : Processor) × (steps (suc (arrival h on)) (processor_at h.hookee registers u.bytes)
          ≡ some s')
        × Entered h.return_address
            (destination h code on)
            (processor_at h.hookee registers u.bytes)
            s'
  hookee-Entered env on h' u registers jumps l e =
      let (s', run, entered) = Loaded-Entered env on [] h' u registers l e in
      (
        s',
        steps-suc (arrival h on) (processor_at h.hookee registers u.bytes) _
              (step_to_trampoline env on h' u registers jumps l)
            ∙ run,
        record {
          at_target = entered.at_target;
          registers = entered.registers;
          saved = entered.saved;
          elsewhere = entered.elsewhere;
        },
      )
