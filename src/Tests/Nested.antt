-- ===== src/Tests/Nested.antt =====
-- A second hook on the first five bytes of a hooked function.
use memwrapper.Base.{
  ℕ, ◌+◌, ◌≡◌, refl, some, true, false, Bool, List, [], ◌∷◌, arith, within, ◌<◌, ◌^◌, ◌≤◌, length,
  ◌∙◌,
}
use memwrapper.Machine.{World}
use memwrapper.Machine.Returns.{Returns, outcome}
use memwrapper.Windows.Simulation.{simulation, simulation-laws, Pages}
use memwrapper.Llmo.Unprotect.Scope.{Same-refl}
use memwrapper.Allocator.{BasicAllocator}
use memwrapper.Asm.Processor.{Processor, steps}
use memwrapper.Hook.Object.{Memhook, jump_opcode}
use memwrapper.Hook.Object.Cycle.{reads_jump, installed_world}
use memwrapper.Hook.Object.Entry.{IsEntry, Entered}
use memwrapper.Hook.Object.Installed.{IsNew, installed_hook, length-trampoline-le}
use memwrapper.Hook.Object.Patched.{redirected_bytes, length-redirected_bytes}
use memwrapper.Hook.Object.Placed.{final, Placed-overlay}
use memwrapper.Hook.Object.Saved.{Installable}
use memwrapper.Hook.Object.Written.{trampoline_bytes}
use memwrapper.Hook.Object.Phases.Changes.{Loaded-outside, owned}
use memwrapper.Hook.Object.Phases.Chain.{original-Entered}
use memwrapper.Hook.Object.Phases.Lives.{head_jump}
use memwrapper.Hook.Object.Phases.Nested.{Alone, nested, nested-Alone, stacked, stacked-Both}
use memwrapper.Hook.Object.Phases.Others.{IsNext}
use memwrapper.Hook.Object.Phases.Pair.{Both}
use memwrapper.Hook.Object.Phases.Represents.{Loaded, installed-Loaded}
use memwrapper.Hook.Object.Phases.Runs.{processor_at}
use memwrapper.Tests.Allocator.{writable_world}
use memwrapper.Tests.Cycle.{
  new_hook, page, new_hook-IsNew, new_hook-Installable, plain_rewritten, new_hook-Relocates,
}
use memwrapper.Tests.Entry.{registers}
use memwrapper.Tests.Hook.{small, small-DisassemblerLaws}

abbrev first_bytes : List ℕ
first_bytes = trampoline_bytes new_hook page plain_rewritten

fits : length first_bytes ≤ 4096
fits =
    length-trampoline-le simulation simulation-laws small small-DisassemblerLaws 0x500010 page
      new_hook writable_world new_hook-IsNew new_hook-Installable plain_rewritten new_hook-Relocates

-- The first hook's page, and its installed object.
abbrev first_page : BasicAllocator
first_page = record { code = page; size = 4096; offset = 16 }

abbrev first : Memhook
first = installed_hook 0x500010 new_hook first_page

abbrev hooked_world : World Pages
hooked_world = record {
  bytes =
      final simulation simulation-laws small 0x500010 page new_hook writable_world
        new_hook-Installable first_bytes (redirected_bytes jump_opcode page 0x401010 6) fits
        (length-redirected_bytes jump_opcode page 0x401010 6 (omega arith));
  kernel = (installed_world simulation 0x500010 new_hook writable_world).kernel;
}

abbrev FirstLoaded : (over : List ℕ) → Memhook → World Pages → Type 0
FirstLoaded =
    Loaded simulation simulation-laws small jump_opcode (reads_jump small small-DisassemblerLaws)
      0x500010 page new_hook new_hook writable_world new_hook-Installable first_bytes
      (installed_world simulation 0x500010 new_hook writable_world) true

first-Loaded : FirstLoaded [] first hooked_world
first-Loaded =
    installed-Loaded simulation simulation-laws small jump_opcode
      (reads_jump small small-DisassemblerLaws) 0x500010 page new_hook new_hook writable_world
      new_hook-Installable first_bytes (head_jump new_hook page plain_rewritten) first_page first
      hooked_world refl refl refl
      (Placed-overlay simulation simulation-laws small 0x500010 page new_hook writable_world
        new_hook-Installable first_bytes (redirected_bytes jump_opcode page 0x401010 6) fits
        (length-redirected_bytes jump_opcode page 0x401010 6 (omega arith)))
      (Same-refl simulation hooked_world.kernel)

abbrev pub second : Memhook
second = record new_hook { hooker = 0x404000; size = 5; return_address = 0x403010 }

abbrev pub second_page : ℕ
second_page = 2 ^ 30 + 4096

pub second-IsNew : IsNew second
second-IsNew = record {
  not_installed = refl;
  not_broken = refl;
  executable = refl;
  no_original = refl;
  plain = refl;
}

second-Installable : Installable simulation 0x500020 second_page second hooked_world
second-Installable = record {
  enough = omega arith;
  small = omega arith;
  word = omega arith;
  target = record { commit = refl; uniform = λ a h. ground arith };
  target_read = λ i h. ground arith;
  behind = refl;
  store = record { commit = refl; uniform = λ a h. ground arith };
  store_read = λ i h. ground arith;
  store_write = λ i h. ground arith;
  apart = omega arith;
  new = record { address = refl; nonzero = λ e. omega arith };
}

pub second-IsNext : IsNext 0x500010 page new_hook 0x500020 second_page second
second-IsNext = record { same = refl; covered = refl; store = refl; no_call = refl }

abbrev Afterwards : Bool → Memhook × Memhook → World Pages → Type 0
Afterwards =
    Alone simulation simulation-laws small small-DisassemblerLaws 0x500010 page new_hook new_hook
      writable_world new_hook-Installable first_bytes fits 0x500020 second_page second hooked_world
      second-Installable second-IsNext (installed_world simulation 0x500010 new_hook writable_world)
      true [] tt second-IsNew first first-Loaded refl refl

nested-Alone_example : Returns (Afterwards false) (
    nested simulation small 0x500010 0x500020 (false ∷ true ∷ false ∷ []) first second hooked_world)
nested-Alone_example =
    nested-Alone simulation simulation-laws small small-DisassemblerLaws 0x500010 page new_hook
      new_hook writable_world new_hook-Installable first_bytes fits 0x500020 second_page second
      hooked_world second-Installable second-IsNext
      (installed_world simulation 0x500010 new_hook writable_world) true [] tt second-IsNew first
      first-Loaded refl refl (false ∷ true ∷ false ∷ [])

abbrev BothThere : Memhook × Memhook → World Pages → Type 0
BothThere (a, b) =
    Both simulation simulation-laws small small-DisassemblerLaws 0x500010 page new_hook new_hook
      writable_world new_hook-Installable first_bytes fits 0x500020 second_page second hooked_world
      second-Installable second-IsNext (installed_world simulation 0x500010 new_hook writable_world)
      true [] tt second-IsNew first first-Loaded true a b

-- The second hook is installed, and the first one removed and installed.
both_there :
    (hooks : Memhook × Memhook) × (v : World Pages) × (stacked simulation small 0x500010 0x500020
        (false ∷ true ∷ [])
        first
        second
        hooked_world
      ≡ some (hooks, v))
    × BothThere hooks v
both_there = outcome (
    stacked-Both simulation simulation-laws small small-DisassemblerLaws 0x500010 page new_hook
      new_hook writable_world new_hook-Installable first_bytes fits 0x500020 second_page second
      hooked_world second-Installable second-IsNext
      (installed_world simulation 0x500010 new_hook writable_world) true [] tt second-IsNew first
      first-Loaded refl refl (false ∷ true ∷ []))

stack_bytes :
    (b : Memhook × Memhook) (v : World Pages)
    → BothThere b v
    → (a : ℕ) → within 0x9000 4 a ≡ true
    → v.bytes a < 256
stack_bytes b v r a i =
    let mine : owned 0x500010 page new_hook a ≡ false = ground (arith, i) in
    let theirs : owned 0x500020 second_page second a ≡ false = ground (arith, i) in
    ground (
      arith,
      r.untouched a mine theirs
          ∙ Loaded-outside simulation simulation-laws small jump_opcode
              (reads_jump small small-DisassemblerLaws) 0x500010 page new_hook new_hook
              writable_world new_hook-Installable first_bytes fits
              (installed_world simulation 0x500010 new_hook writable_world) true [] first
              hooked_world first-Loaded a mine,
    )

both_there-IsEntry :
    (b : Memhook × Memhook) (v : World Pages)
    → BothThere b v
    → IsEntry 0x403000 0x402000 (processor_at page registers v.bytes)
both_there-IsEntry b v r = record {
  code_word = omega arith;
  stack = omega arith;
  stack_word = omega arith;
  eax_word = omega arith;
  target_word = omega arith;
  context_word = omega arith;
  stack_bytes = stack_bytes b v r;
  stack_apart = omega arith;
  context_apart = omega arith;
  context_stack = omega arith;
}

original-Entered_example :
    (s' : Processor) × (steps 6 (processor_at (second_page + 16) registers both_there.1.bytes)
      ≡ some s')
    × Entered 0x403000 0x402000 (processor_at (second_page + 16) registers both_there.1.bytes) s'
original-Entered_example =
    original-Entered simulation simulation-laws small small-DisassemblerLaws 0x500010 page new_hook
      new_hook writable_world new_hook-Installable plain_rewritten fits 0x500020 second_page second
      hooked_world second-Installable second-IsNext
      (installed_world simulation 0x500010 new_hook writable_world) true [] tt second-IsNew first
      first-Loaded refl refl refl (false ∷ true ∷ []) both_there.0.0 both_there.0.1 both_there.1
      both_there.2 registers (both_there-IsEntry both_there.0 both_there.1 both_there.3)
