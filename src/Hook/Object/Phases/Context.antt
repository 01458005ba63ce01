-- ===== src/Hook/Object/Phases/Context.antt =====
-- What the hooker learns from `get_context`.
use memwrapper.Base.{ℕ, ◌≡◌, ap, true, [], some, List}
use memwrapper.Machine.{World}
use memwrapper.Machine.Run.{CanRead, read_bytes-slice}
use memwrapper.Windows.{Windows, WindowsLaws, cpu}
use memwrapper.Asm.{Registers, esp}
use memwrapper.Asm.Processor.{Processor, steps, word_at}
use memwrapper.Hook.Disassembler.{Disassembler}
use memwrapper.Hook.Object.{Memhook, MemhookContext, get_context, jump_opcode}
use memwrapper.Hook.Object.Entry.{IsEntry}
use memwrapper.Hook.Object.Reads.{Reads}
use memwrapper.Hook.Object.Saved.{Installable}
use memwrapper.Llmo.Operations.Kept.{CanRead-Same}
use memwrapper.Hook.Object.Phases.Represents.{Loaded}
use memwrapper.Hook.Object.Phases.Runs.{processor_at, trampoline, hookee-Entered}

-- The context in which the return address is the word.
abbrev pub context : ℕ → MemhookContext
context word = record { return_address = word }

module _ (win : Windows) (laws : WindowsLaws win) (d : Disassembler) (opcode : ℕ)
    (reads : Reads d opcode) (storage code : ℕ) (h₀ h : Memhook) (w : World win.Kernel)
    (can : Installable win storage code h w) (rest : List ℕ) where
  open win use {Kernel, committed}

  -- When the hook is on and no later hook is there, a processor that comes to the hooked function,
  -- where nothing wraps and stack, code and context do not meet, gets to the hooker in six steps
  -- with the same registers. There `get_context` gives the word at the stack's top as the return
  -- address, if the object with the context can be read, and changes nothing.
  pub get_context-Entered :
      (env : World Kernel) (h' : Memhook) (u : World Kernel) (registers : Registers → ℕ)
      → opcode ≡ jump_opcode
      → Loaded win laws d opcode reads storage code h₀ h w can
          (trampoline win laws d opcode reads storage code h₀ h w can rest)
          env
          true
          []
          h'
          u
      → IsEntry h.return_address h.hooker (processor_at code registers u.bytes)
      → CanRead (cpu win) env.kernel h.return_address 4
      → (s' : Processor) × (steps 6 (processor_at h.hookee registers u.bytes) ≡ some s')
        × (s'.eip ≡ h.hooker)
        × ((r : Registers) → s'.registers r ≡ registers r)
        × (get_context win d h' (record { bytes = s'.bytes; kernel = u.kernel })
            ≡ some (
              context (word_at u.bytes (registers esp)),
              record { bytes = s'.bytes; kernel = u.kernel },
            ))
  unfolding get_context
  get_context-Entered env h' u registers jumps l e r =
      let (s', run, entered) =
        hookee-Entered win laws d opcode reads storage code h₀ h w can rest env true h' u registers
          jumps l e in
      let readable : CanRead (cpu win) u.kernel h.return_address 4 =
        CanRead-Same win h.return_address 4 r l.5 in
      let world : World Kernel = record { bytes = s'.bytes; kernel = u.kernel } in
      (
        s',
        run,
        entered.at_target,
        entered.registers,
        rw
            (
              ap (λ (x : Memhook). x.return_address) l.2,
              read_bytes-slice (cpu win) h.return_address 4 world readable,
            )
            (ap (λ k. some (context k, world)) entered.saved),
      )
