-- ===== src/Tests/Phases.antt =====
-- A hook is installed, buried by a later one, removed, installed again, dug out and removed.
use memwrapper.Base.{refl, true, List, [], ◌∷◌}
use memwrapper.Machine.{slice, ◌>>=◌}
use memwrapper.Machine.Returns.{Returns}
use memwrapper.Windows.Simulation.{simulation, simulation-laws}
use memwrapper.Detail.Bytes.{number}
use memwrapper.Hook.Object.{Memhook, destroy, call_opcode, jump_opcode}
use memwrapper.Hook.Object.Cycle.{reads_jump, reads_call}
use memwrapper.Hook.Object.Head.{head_bytes}
use memwrapper.Hook.Object.Redirected.{called, call_target, called-Installable}
use memwrapper.Hook.Object.Written.{trampoline_bytes}
use memwrapper.Hook.Object.Phases.Ends.{IsOff, run-destroy-IsOff}
use memwrapper.Hook.Object.Phases.{
  Event, Phase, loaded, call_install, call_remove, bury, unbury, elsewhere, spent, run,
}
use memwrapper.Hook.Object.Phases.Represents.{Represents}
use memwrapper.Hook.Object.Phases.Lives.{environment, run-Represents_code, run-Represents_call}
use memwrapper.Tests.Allocator.{writable_world}
use memwrapper.Tests.Cycle.{
  new_hook, page, new_hook-IsNew, new_hook-Installable, plain_rewritten, new_hook-Relocates,
}
use memwrapper.Tests.Hook.{small, small-DisassemblerLaws}
use memwrapper.Tests.Redirected.{on_call, on_call-IsNew, on_call-Installable}

-- Two later hooks bury this one, one after the other, and other code writes a byte to the stack.
abbrev events : List Event
events =
    call_remove
    ∷ call_install
    ∷ bury 0x7000
    ∷ elsewhere 0x9000 (0xcc ∷ [])
    ∷ bury 0x7100
    ∷ call_remove
    ∷ unbury 0x7000
    ∷ call_install
    ∷ unbury page
    ∷ call_remove
    ∷ []

run-Represents_code_example :
    Returns
      (Represents simulation simulation-laws small jump_opcode
        (reads_jump small small-DisassemblerLaws)
        0x500010
        page
        new_hook
        new_hook
        writable_world
        new_hook-Installable
        (trampoline_bytes new_hook page plain_rewritten)
        (environment simulation 0x500010 new_hook writable_world events)
        spent)
      (run simulation small jump_opcode 0x500010 page events new_hook writable_world)
run-Represents_code_example =
    run-Represents_code simulation simulation-laws small small-DisassemblerLaws 0x500010 page
      new_hook writable_world new_hook-IsNew new_hook-Installable plain_rewritten new_hook-Relocates
      events spent refl

run-Represents_call_example :
    Returns
      (Represents simulation simulation-laws small call_opcode
        (reads_call small small-DisassemblerLaws)
        0x500010
        page
        on_call
        (called on_call (call_target writable_world.bytes 0x4010e8))
        writable_world
        (called-Installable simulation simulation-laws small small-DisassemblerLaws 0x500010 page
          on_call writable_world on_call-IsNew on_call-Installable refl)
        (head_bytes 0x403000 0x402000 page)
        (environment simulation 0x500010 on_call writable_world events)
        spent)
      (run simulation small call_opcode 0x500010 page events on_call writable_world)
unfolding number slice
run-Represents_call_example =
    run-Represents_call simulation simulation-laws small small-DisassemblerLaws 0x500010 page
      on_call writable_world on_call-IsNew on_call-Installable refl events spent refl

-- The hook is destroyed while a later one stands over it.
run-destroy-IsOff_example :
    Returns
      (λ _ v.
        (q : Phase) × (x : Memhook) × IsOff q
        × Represents simulation simulation-laws small jump_opcode
            (reads_jump small small-DisassemblerLaws)
            0x500010
            page
            new_hook
            new_hook
            writable_world
            new_hook-Installable
            (trampoline_bytes new_hook page plain_rewritten)
            (environment simulation 0x500010 new_hook writable_world
              (call_install ∷ bury 0x7000 ∷ []))
            q
            x
            v)
      ((run simulation small jump_opcode 0x500010 page (call_install ∷ bury 0x7000 ∷ []) new_hook
          >>= destroy simulation small)
        writable_world)
run-destroy-IsOff_example =
    run-destroy-IsOff simulation simulation-laws small small-DisassemblerLaws 0x500010 page new_hook
      writable_world new_hook-IsNew new_hook-Installable plain_rewritten new_hook-Relocates
      (call_install ∷ bury 0x7000 ∷ []) (loaded true (0x7000 ∷ [])) refl
