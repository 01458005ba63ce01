-- ===== src/Tests/Whole.antt =====
-- Two hooks on one function, from the first installation to the last removal.
use memwrapper.Base.{
  ℕ, ◌≡◌, refl, some, none, Option, true, false, [], ◌∷◌, arith, ◌∙◌, sym, ◌+◌, ◌/◌,
}
use memwrapper.Machine.{World}
use memwrapper.Machine.Returns.{Returns}
use memwrapper.Windows.Simulation.{simulation, simulation-laws, Pages}
use memwrapper.Hook.Object.{Memhook, install}
use memwrapper.Hook.Object.Saved.{Installable}
use memwrapper.Hook.Object.Phases.Whole.{Undone, lives, lives-Undone}
use memwrapper.Tests.Allocator.{writable_world}
use memwrapper.Tests.Cycle.{
  new_hook, page, new_hook-IsNew, new_hook-Installable, plain_rewritten, new_hook-Relocates,
}
use memwrapper.Tests.Hook.{small, small-DisassemblerLaws}
use memwrapper.Tests.Nested.{second, second_page, second-IsNew, second-IsNext}

abbrev outcome_of : Option (Memhook × World Pages) → Memhook × World Pages
outcome_of none = (new_hook, writable_world)
outcome_of (some r) = r

-- The first hook's installation, run.
abbrev installed : Memhook × World Pages
installed = outcome_of (install simulation small 0x500010 new_hook writable_world)

installs :
    (install simulation small 0x500010 new_hook writable_world ≡ some installed)
    × (installed.1.kernel.allocated ≡ 1)
    × ((p : ℕ) → installed.1.kernel.protections p ≡ 0x40)
unfolding memwrapper.Hook.Object.install memwrapper.Hook.Object.install_first
    memwrapper.Hook.Object.install_trampoline memwrapper.Hook.Object.save_original
    memwrapper.Machine.memset memwrapper.Hook.Disassembler.disassemble
    memwrapper.Hook.Object.look_for_call memwrapper.Asm.construct memwrapper.Allocator.construct
    memwrapper.Llmo.Operations.copy_memory memwrapper.Machine.memcpy memwrapper.Detail.align_value
    memwrapper.Hook.Object.write_trampoline memwrapper.Hook.Object.write_head memwrapper.Asm.push
    memwrapper.Allocator.db memwrapper.Asm.mov_load memwrapper.Asm.mov_store
    memwrapper.Allocator.db_bytes memwrapper.Allocator.db_object memwrapper.Allocator.dbvalue
    memwrapper.Allocator.ready memwrapper.Asm.jmp memwrapper.Asm.pop memwrapper.Detail.byteof
    memwrapper.Detail.get_relative_address memwrapper.Detail.restore_absolute_address
    memwrapper.Hook.Disassembler.has memwrapper.Hook.Object.patch_hookee
    memwrapper.Hook.Object.reinstall memwrapper.Hook.Relocation.condition
    memwrapper.Hook.Relocation.emit memwrapper.Hook.Relocation.generate
    memwrapper.Hook.Relocation.is_jcc memwrapper.Hook.Relocation.is_jmp
    memwrapper.Hook.Relocation.jcc_destination memwrapper.Hook.Relocation.jmp_destination
    memwrapper.Hook.Relocation.relocate memwrapper.Llmo.Operations.fill_memory
    memwrapper.Llmo.Operations.flush_memory memwrapper.Llmo.Operations.flushed
    memwrapper.Llmo.Operations.write_memory memwrapper.Llmo.Unprotect.construct
    memwrapper.Llmo.Unprotect.convert_memory_protection_constant memwrapper.Llmo.Unprotect.destroy
    memwrapper.Llmo.Unprotect.unprotected memwrapper.Machine.load memwrapper.Machine.read_bytes
    memwrapper.Machine.store memwrapper.Machine.update memwrapper.Machine.write_bytes
installs = (refl, refl, λ p. ground arith)

second-Installable_run : Installable simulation 0x500020 second_page second installed.1
second-Installable_run = record {
  enough = omega arith;
  small = omega arith;
  word = omega arith;
  target = record { commit = refl; uniform = λ a h. installs.2 _ ∙ sym (installs.2 _) };
  target_read = λ i h. rw (installs.2 ((0x401010 + i) / 4096)) refl;
  behind = refl;
  store = record { commit = refl; uniform = λ a h. installs.2 _ ∙ sym (installs.2 _) };
  store_read = λ i h. rw (installs.2 ((0x500020 + i) / 4096)) refl;
  store_write = λ i h. rw (installs.2 ((0x500020 + i) / 4096)) refl;
  apart = omega arith;
  new = record { address = rw installs.1 refl; nonzero = λ e. omega arith };
}

lives-Undone_example :
    Returns
      (Undone simulation simulation-laws small small-DisassemblerLaws 0x500010 page new_hook
        writable_world new_hook-IsNew new_hook-Installable plain_rewritten new_hook-Relocates
        installed.0 installed.1 installs.0 0x500020 second_page second second-Installable_run
        second-IsNext second-IsNew)
      (lives simulation small 0x500010 0x500020 (false ∷ true ∷ []) new_hook second writable_world)
lives-Undone_example =
    lives-Undone simulation simulation-laws small small-DisassemblerLaws 0x500010 page new_hook
      writable_world new_hook-IsNew new_hook-Installable plain_rewritten new_hook-Relocates
      installed.0 installed.1 installs.0 0x500020 second_page second second-Installable_run
      second-IsNext second-IsNew (false ∷ true ∷ []) refl
