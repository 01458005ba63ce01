-- ===== src/Tests/Patch.antt =====
-- A patch of two overlapping units on the simulated operating system.
use memwrapper.Base.{true, false, ℕ, ◌≡◌, refl, List, [], ◌∷◌, ◌↔◌, arith, if◌then◌else◌}
use memwrapper.Machine.{Bytes, pure, slice}
use memwrapper.Machine.Returns.{Returns, returns}
use memwrapper.Windows.Simulation.{simulation, simulation-laws}
use memwrapper.Llmo.Unprotect.Scope.{Same-refl}
use memwrapper.Llmo.Operations.Kept.{Kept}
use memwrapper.Patch
use memwrapper.Patch.{
  ScopedPatchUnit, CopySource, module_address_of_pointer, module_address_of_integer,
}
use memwrapper.Patch.Units.{covered, patched, IsCaptured}
use memwrapper.Patch.Toggles.{toggles, toggles-shown}
use memwrapper.Patch.Adds.{CanAdd}
use memwrapper.Patch.Copies.{copies, with_copies}
use memwrapper.Patch.Block.{scoped_patch-undo}
use memwrapper.Tests.Allocator.{writable_world}
use memwrapper.Patch.Address.{module_addresses-eq_iff}
use memwrapper.Tests.Memory.{read_only}

-- Both units cover 0x1012; their originals hold what stands there.
abbrev first : ScopedPatchUnit
first = record {
  address = 0x1010;
  replacement = record { start = 0x3040; size = 3 };
  original = record { start = 0x3010; size = 3 };
}

abbrev second : ScopedPatchUnit
second = record {
  address = 0x1012;
  replacement = record { start = 0x3050; size = 2 };
  original = record { start = 0x3112; size = 2 };
}

abbrev both : List ScopedPatchUnit
both = first ∷ second ∷ []

abbrev both_installed : Bytes
both_installed = patched read_only.bytes both

first-IsCaptured : IsCaptured simulation read_only first
unfolding slice
first-IsCaptured = record {
  can_install = record {
    target = record { commit = refl; uniform = λ a h. refl };
    source = λ i h. refl;
  };
  can_restore = record {
    target = record { commit = refl; uniform = λ a h. refl };
    source = λ i h. refl;
  };
  same_size = refl;
  captured = refl;
}

second-IsCaptured : IsCaptured simulation read_only second
unfolding slice
second-IsCaptured = record {
  can_install = record {
    target = record { commit = refl; uniform = λ a h. refl };
    source = λ i h. refl;
  };
  can_restore = record {
    target = record { commit = refl; uniform = λ a h. refl };
    source = λ i h. refl;
  };
  same_size = refl;
  captured = refl;
}

-- The second unit's first byte stands where the two meet.
overlap : both_installed 0x1012 ≡ 0x50
overlap = refl

-- The units with the storage that their copies get.
abbrev sources : List CopySource
sources =
    record { unit = first; storage = 0x5000; storage' = 0x6000 }
    ∷ record { unit = second; storage = 0x5010; storage' = 0x6010 }
    ∷ []

abbrev sources_installed : Bytes
sources_installed = patched (with_copies writable_world.bytes sources) (copies sources)

first_source : IsCaptured simulation writable_world first
unfolding slice
first_source = record {
  can_install = record {
    target = record { commit = refl; uniform = λ a h. refl };
    source = λ i h. refl;
  };
  can_restore = record {
    target = record { commit = refl; uniform = λ a h. refl };
    source = λ i h. refl;
  };
  same_size = refl;
  captured = refl;
}

second_source : IsCaptured simulation writable_world second
unfolding slice
second_source = record {
  can_install = record {
    target = record { commit = refl; uniform = λ a h. refl };
    source = λ i h. refl;
  };
  can_restore = record {
    target = record { commit = refl; uniform = λ a h. refl };
    source = λ i h. refl;
  };
  same_size = refl;
  captured = refl;
}

first_storage : CanAdd simulation writable_world.kernel first 0x5000 0x6000
first_storage = record {
  first_read = λ i h. refl;
  first_write = λ i h. refl;
  second_read = λ i h. refl;
  second_write = λ i h. refl;
  original_apart = omega arith;
  first_apart = omega arith;
  second_apart = omega arith;
  storage_apart = omega arith;
}

second_storage : CanAdd simulation writable_world.kernel second 0x5010 0x6010
second_storage = record {
  first_read = λ i h. refl;
  first_write = λ i h. refl;
  second_read = λ i h. refl;
  second_write = λ i h. refl;
  original_apart = omega arith;
  first_apart = omega arith;
  second_apart = omega arith;
  storage_apart = omega arith;
}

scoped_patch-undo_example :
    Returns
      (Kept simulation writable_world (λ _ f.
        (a : ℕ)
        → f a
          ≡ (if covered (copies sources) a then writable_world.bytes a else sources_installed a)))
      (Patch.block simulation sources (pure tt) writable_world)
unfolding slice
scoped_patch-undo_example =
    scoped_patch-undo simulation simulation-laws sources (pure tt) sources_installed writable_world
      ((first_source, (second_source, tt)), (first_storage, (second_storage, tt)), omega arith)
      (omega arith) (refl, (refl, tt)) λ u e s. returns (e, Same-refl simulation u.kernel)

toggles-shown_example :
    Returns
      (Kept simulation read_only (λ _ f. f ≡ both_installed))
      (toggles simulation (true ∷ true ∷ false ∷ true ∷ []) (record { units = both }) read_only)
unfolding slice
toggles-shown_example =
    toggles-shown simulation simulation-laws both read_only
      (first-IsCaptured, (second-IsCaptured, tt)) (omega arith) (true ∷ true ∷ false ∷ true ∷ [])

module_addresses-eq_iff_example :
    (module_address_of_pointer simulation 0x100 8 read_only
      ≡ module_address_of_integer simulation 0x100 8 read_only)
    ↔ (◌≡◌ {A = ℕ} 8 0)
module_addresses-eq_iff_example =
    module_addresses-eq_iff simulation simulation-laws 0x100 8 read_only (omega arith)
