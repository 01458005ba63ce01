-- ===== src/Hook/Object/Phases/Chain.antt =====
-- Where the processor goes when the second of two hooks on a function calls the original code.
use memwrapper.Base.{
  ℕ, suc, ◌+◌, ◌≡◌, ◌≤◌, ap, ◌∙◌, Bool, true, false, some, List, [], ◌∷◌, ◌++◌, arith, length,
  Apart,
}
use memwrapper.Machine.{World, slice}
use memwrapper.Machine.Returns
use memwrapper.Machine.Overlay.{slice_parts, slice-ext}
use memwrapper.Windows.{Windows, WindowsLaws}
use memwrapper.Asm.{Registers}
use memwrapper.Asm.Encoding.{jmp_bytes}
use memwrapper.Asm.Processor.{Processor, step, steps, steps-suc}
use memwrapper.Detail.{get_relative_address, jump_oplen, byteof}
use memwrapper.Hook.Disassembler.{Disassembler, DisassemblerLaws}
use memwrapper.Hook.Object.{Memhook, jump_opcode, original_offset}
use memwrapper.Hook.Object.Cycle.{reads_jump}
use memwrapper.Hook.Object.Entry.{IsEntry, Entered}
use memwrapper.Hook.Object.Head.{head_bytes}
use memwrapper.Hook.Object.Installed.{IsNew}
use memwrapper.Hook.Object.Saved.{Installable}
use memwrapper.Hook.Object.Phases.{leads}
use memwrapper.Hook.Object.Phases.Nested.{final, stacked, stacked-Both}
use memwrapper.Hook.Object.Phases.Others.{IsNext}
use memwrapper.Hook.Object.Phases.Pair.{Both, leads-lt}
use memwrapper.Hook.Object.Phases.Represents.{Loaded, IsLater, hookee-Apart}
use memwrapper.Hook.Object.Phases.Runs.{
  Loaded-Entered, destination, arrival, processor_at, step-jump,
}

module _ (win : Windows) (laws : WindowsLaws win) (d : Disassembler) (dis : DisassemblerLaws d)
    (storage code : ℕ) (h₀ h : Memhook) (w : World win.Kernel)
    (can : Installable win storage code h w) (rest : List ℕ)
    (fits : length (head_bytes h.return_address h.hooker code ++ rest) ≤ 4096) where
  open win use {Kernel}

  abbrev trampoline : List ℕ
  trampoline = head_bytes h.return_address h.hooker code ++ rest

  module _ (storage' code' : ℕ) (b : Memhook) (u : World Kernel)
      (can' : Installable win storage' code' b u) (next : IsNext storage code h storage' code' b)
      (env : World Kernel) (on : Bool) (over : List ℕ)
      (later : IsLater win laws d jump_opcode
        (reads_jump d dis)
        storage
        code
        h₀
        h
        w
        can
        trampoline
        over)
      (new : IsNew b) (h' : Memhook)
      (l : Loaded win laws d jump_opcode
        (reads_jump d dis)
        storage
        code
        h₀
        h
        w
        can
        trampoline
        env
        on
        over
        h'
        u) where
    module _ (on' : Bool) (a' b' : Memhook) (v : World Kernel)
        (r : Both win laws d dis storage code h₀ h w can trampoline fits storage' code' b u can'
          next env on over later new h' l on' a' b' v) where
      abbrev rel32 : ℕ
      rel32 = get_relative_address (leads code over) (code' + original_offset) jump_oplen

      -- The instruction that the second hook has relocated.
      relocated_jump : slice v.bytes (code' + original_offset) 5 ≡ jmp_bytes rel32
      unfolding byteof
      relocated_jump =
          let (o, g, e, m, st, _, _) = r.second in
          slice-ext v.bytes g (code' + original_offset) (code' + original_offset) 5 (λ i lt.
            st.elsewhere (code' + original_offset + i) (ground (arith, apart)) (ground arith))
          ∙ (slice_parts g (code' + original_offset) (jmp_bytes rel32) _
              (slice_parts g code' (head_bytes b.return_address b.hooker code') _ m.trampoline).1).0
        where
          apart : Apart code' 4096 b.hookee 5
          apart =
              hookee-Apart win laws d jump_opcode (reads_jump d dis) storage' code' b b u can'
                trampoline

      step_to_previous :
          (registers : Registers → ℕ)
          → step (processor_at (code' + original_offset) registers v.bytes)
            ≡ some (processor_at (leads code over) registers v.bytes)
      step_to_previous registers =
          step-jump (leads code over) (code' + original_offset) registers v.bytes
            (leads-lt win laws d dis storage code h₀ h w can trampoline fits storage' code' b u can'
              next env on over later new h' l)
            relocated_jump

      Both-Entered :
          (registers : Registers → ℕ)
          → over ≡ []
          → IsEntry h.return_address (destination h code on') (processor_at code registers v.bytes)
          → (s' : Processor) × (steps
                (suc (arrival h on'))
                (processor_at (code' + original_offset) registers v.bytes)
              ≡ some s')
            × Entered h.return_address
                (destination h code on')
                (processor_at (code' + original_offset) registers v.bytes)
                s'
      Both-Entered registers bottom e =
          let (s', run, entered) =
            Loaded-Entered win laws d jump_opcode (reads_jump d dis) storage code h₀ h w can rest
              r.env₁ on' (code' ∷ over) a' v registers r.first e in
          (
            s',
            steps-suc (arrival h on') (processor_at (code' + original_offset) registers v.bytes) _ (
                  step_to_previous registers
                  ∙ ap (λ xs. some (processor_at (leads code xs) registers v.bytes)) bottom)
                ∙ run,
            record {
              at_target = entered.at_target;
              registers = entered.registers;
              saved = entered.saved;
              elsewhere = entered.elsewhere;
            },
          )

    -- Let a hook that is redirected by a jump be loaded, on or off, with no later hook, a trampoline
    -- that fits into its page, a listing that is not broken and on an executable function, and let a second hook that is new and may be installed lie on the five
    -- bytes of its jump, save them where the first has nothing, and not have its page where the
    -- first one's call led. The second has been installed, and then the first installed and removed
    -- any number of times, in any order. A processor that comes to the second one's original code,
    -- where for the first one's trampoline nothing wraps and stack, code and context do not meet,
    -- gets through the jump that was relocated there to where that trampoline leads: to the first
    -- hooker if the last call has left the first hook on, and else to its original code or, for a
    -- call, to its old target. It gets there in 6 or 10 steps, with the same registers and with the
    -- return address saved, and no other memory has changed but the word below the stack's top.
    pub original-Entered :
        h.flags.listing_broken ≡ false
        → h.flags.executable ≡ true
        → over ≡ []
        → (ons : List Bool) (a' b' : Memhook) (v : World Kernel)
        → stacked win d storage storage' ons h' b u ≡ some ((a', b'), v)
        → (registers : Registers → ℕ)
        → IsEntry h.return_address
            (destination h code (final on ons))
            (processor_at code registers v.bytes)
        → (s' : Processor) × (steps
              (suc (arrival h (final on ons)))
              (processor_at (code' + original_offset) registers v.bytes)
            ≡ some s')
          × Entered h.return_address
              (destination h code (final on ons))
              (processor_at (code' + original_offset) registers v.bytes)
              s'
    original-Entered not_broken executable bottom ons a' b' v e registers entry =
        Both-Entered (final on ons) a' b' v
          (Returns.result
            (stacked-Both win laws d dis storage code h₀ h w can trampoline fits storage' code' b u
              can' next env on over later new h' l not_broken executable ons)
            e)
          registers bottom entry
