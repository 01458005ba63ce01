-- ===== src/Tests/Runs.antt =====
-- The processor comes to a hook that a later hook has buried, removed below it, and dug out again.
use memwrapper.Base.{
  ℕ, length, ◌+◌, ◌<◌, ◌≡◌, refl, some, true, false, List, [], ◌∷◌, arith, within, Bool,
}
use memwrapper.Machine.{M, World, slice}
use memwrapper.Machine.Returns.{outcome}
use memwrapper.Windows.Simulation.{simulation, simulation-laws, Pages}
use memwrapper.Asm.{Registers, esp}
use memwrapper.Asm.Processor.{Processor, steps, word_at}
use memwrapper.Hook.Object.Phases.Context.{context, get_context-Entered}
use memwrapper.Detail.{CallingConvention, cdecl, call_function, byteof}
use memwrapper.Hook.Object.{Memhook, call, get_context, jump_opcode, original_offset}
use memwrapper.Hook.Object.Phases.Ends.{call-Loaded}
use memwrapper.Hook.Object.Cycle.{reads_jump}
use memwrapper.Hook.Object.Entry.{IsEntry, Entered}
use memwrapper.Hook.Object.Phases.{call_install, call_remove, bury, unbury, loaded}
use memwrapper.Hook.Object.Phases.Represents.{Loaded}
use memwrapper.Hook.Object.Phases.Lives.{environment, run-Represents_code}
use memwrapper.Hook.Object.Phases.Runs.{
  destination, processor_at, trampoline, Loaded-Entered, hookee-Entered,
}
use memwrapper.Tests.Allocator.{writable_world}
use memwrapper.Tests.Cycle.{
  new_hook, page, new_hook-IsNew, new_hook-Installable, plain_rewritten, new_hook-Relocates,
}
use memwrapper.Tests.Entry.{registers}
use memwrapper.Tests.Hook.{small, small-DisassemblerLaws}

-- What other code has made of the world: nothing.
abbrev untouched : World Pages
untouched = environment simulation 0x500010 new_hook writable_world []

abbrev Reached : (on : Bool) (over : List ℕ) → Memhook → World Pages → Type 0
Reached =
    Loaded simulation simulation-laws small jump_opcode (reads_jump small small-DisassemblerLaws)
      0x500010 page new_hook new_hook writable_world new_hook-Installable
      (trampoline simulation simulation-laws small jump_opcode
        (reads_jump small small-DisassemblerLaws) 0x500010 page new_hook new_hook writable_world
        new_hook-Installable plain_rewritten)
      untouched

reached : (h : Memhook) × (u : World Pages) × Reached false [] h u
reached =
    let (h, u, _, r) = outcome (
      run-Represents_code simulation simulation-laws small small-DisassemblerLaws 0x500010 page
        new_hook writable_world new_hook-IsNew new_hook-Installable plain_rewritten
        new_hook-Relocates (call_install ∷ bury 0x7000 ∷ call_remove ∷ unbury page ∷ [])
        (loaded false []) refl) in
    (h, u, r.1)

-- The stack at 0x9000 is no part of the hook.
reached_stack :
    (on : Bool) (h : Memhook) (u : World Pages)
    → Reached on [] h u
    → (a : ℕ) → within 0x9000 4 a ≡ true
    → u.bytes a < 256
reached_stack on h u (o, g, _, m, st, _, _) a i =
    ground (arith, st.elsewhere a (ground arith) (ground arith), m.elsewhere a)

reached-IsEntry :
    (on : Bool) (h : Memhook) (u : World Pages)
    → Reached on [] h u
    → IsEntry 0x403000 (destination new_hook page on) (processor_at page registers u.bytes)
reached-IsEntry on h u l = record {
  code_word = omega arith;
  stack = omega arith;
  stack_word = omega arith;
  eax_word = omega arith;
  target_word = ground arith;
  context_word = omega arith;
  stack_bytes = reached_stack on h u l;
  stack_apart = omega arith;
  context_apart = omega arith;
  context_stack = omega arith;
}

Loaded-Entered_example :
    (s' : Processor) × (steps 9 (processor_at page registers reached.1.bytes) ≡ some s')
    × Entered 0x403000 (page + 16) (processor_at page registers reached.1.bytes) s'
Loaded-Entered_example =
    Loaded-Entered simulation simulation-laws small jump_opcode
      (reads_jump small small-DisassemblerLaws) 0x500010 page new_hook new_hook writable_world
      new_hook-Installable plain_rewritten untouched false [] reached.0 reached.1 registers
      reached.2 (reached-IsEntry false reached.0 reached.1 reached.2)

hookee-Entered_example :
    (s' : Processor) × (steps 10 (processor_at 0x401010 registers reached.1.bytes) ≡ some s')
    × Entered 0x403000 (page + 16) (processor_at 0x401010 registers reached.1.bytes) s'
hookee-Entered_example =
    hookee-Entered simulation simulation-laws small jump_opcode
      (reads_jump small small-DisassemblerLaws) 0x500010 page new_hook new_hook writable_world
      new_hook-Installable plain_rewritten untouched false reached.0 reached.1 registers refl
      reached.2 (reached-IsEntry false reached.0 reached.1 reached.2)

-- Functions give back the address at which they are called.
abbrev invoke : CallingConvention → ℕ → List ℕ → M Pages ℕ
invoke convention address args u = some (address, u)

call-Loaded_example :
    (call simulation small invoke cdecl reached.0 [] reached.1
      ≡ call_function invoke cdecl (page + 16) [] reached.1)
    × (slice reached.1.bytes (page + original_offset) (length plain_rewritten) ≡ plain_rewritten)
unfolding slice byteof
call-Loaded_example =
    call-Loaded simulation simulation-laws small jump_opcode
      (reads_jump small small-DisassemblerLaws) 0x500010 page new_hook new_hook writable_world
      new_hook-Installable plain_rewritten invoke untouched false [] reached.0 reached.1 cdecl []
      (omega arith) reached.2

switched_on : (h : Memhook) × (u : World Pages) × Reached true [] h u
switched_on =
    let (h, u, _, r) = outcome (
      run-Represents_code simulation simulation-laws small small-DisassemblerLaws 0x500010 page
        new_hook writable_world new_hook-IsNew new_hook-Installable plain_rewritten
        new_hook-Relocates
        (call_install ∷ bury 0x7000 ∷ call_remove ∷ call_install ∷ unbury page ∷ [])
        (loaded true []) refl) in
    (h, u, r.1)

get_context-Entered_example :
    (s' : Processor) × (steps 6 (processor_at 0x401010 registers switched_on.1.bytes) ≡ some s')
    × (s'.eip ≡ 0x402000)
    × ((r : Registers) → s'.registers r ≡ registers r)
    × (get_context simulation small switched_on.0
          (record { bytes = s'.bytes; kernel = switched_on.1.kernel })
        ≡ some (
          context (word_at switched_on.1.bytes (registers esp)),
          record { bytes = s'.bytes; kernel = switched_on.1.kernel },
        ))
get_context-Entered_example =
    get_context-Entered simulation simulation-laws small jump_opcode
      (reads_jump small small-DisassemblerLaws) 0x500010 page new_hook new_hook writable_world
      new_hook-Installable plain_rewritten untouched switched_on.0 switched_on.1 registers refl
      switched_on.2 (reached-IsEntry true switched_on.0 switched_on.1 switched_on.2)
      (λ i lt. ground arith)
