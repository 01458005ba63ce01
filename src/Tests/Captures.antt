-- ===== src/Tests/Captures.antt =====
-- A patch unit that reads the three bytes at 0x1010 itself, and one that is added to a patch.
use memwrapper.Base.{ℕ, ◌≡◌, refl, false, arith, within, [], ◌∷◌}
use memwrapper.Machine.{slice}
use memwrapper.Machine.Returns.{Returns}
use memwrapper.Windows.Simulation.{simulation, simulation-laws}
use memwrapper.Llmo.Unprotect.Scope.{Same}
use memwrapper.Patch.{ByteVector, ScopedPatchUnit, construct_read, add}
use memwrapper.Patch.Adds.{add-IsCaptured}
use memwrapper.Patch.Units.{IsCaptured}
use memwrapper.Patch.Captures.{construct_read-IsCaptured}
use memwrapper.Tests.Allocator.{writable_world}

abbrev three_bytes : ByteVector
three_bytes = record { start = 0x3040; size = 3 }

abbrev three_captured : ScopedPatchUnit
three_captured = record {
  address = 0x1010;
  replacement = record { start = 0x5000; size = 3 };
  original = record { start = 0x6000; size = 3 };
}

construct_read-IsCaptured_example :
    Returns
      (λ u v.
        (u ≡ three_captured)
        × IsCaptured simulation v u
        × (slice v.bytes 0x5000 3 ≡ slice writable_world.bytes 0x3040 3)
        × ((a : ℕ)
            → within 0x5000 3 a ≡ false
            → within 0x6000 3 a ≡ false
            → v.bytes a ≡ writable_world.bytes a)
        × Same simulation writable_world.kernel v.kernel)
      (construct_read simulation 0x1010 three_bytes 0x5000 0x6000 writable_world)
construct_read-IsCaptured_example =
    construct_read-IsCaptured simulation simulation-laws 0x1010 three_bytes 0x5000 0x6000
      writable_world
      (record {
        target = record { commit = refl; uniform = λ a h. refl };
        target_read = λ i h. refl;
        source = λ i h. refl;
        first_read = λ i h. refl;
        first_write = λ i h. refl;
        second = record { commit = refl; uniform = λ a h. refl };
        second_read = λ i h. refl;
        second_write = λ i h. refl;
        first_apart = omega arith;
        second_apart = omega arith;
        storage_apart = omega arith;
      })

-- The bytes at 0x7010 are those at 0x1010.
abbrev undoable : ScopedPatchUnit
undoable = record {
  address = 0x1010;
  replacement = three_bytes;
  original = record { start = 0x7010; size = 3 };
}

add-IsCaptured_example :
    Returns
      (λ p v.
        (p.units ≡ undoable ∷ three_captured ∷ [])
        × IsCaptured simulation v three_captured
        × (slice v.bytes 0x5000 3 ≡ slice writable_world.bytes 0x3040 3)
        × ((a : ℕ)
            → within 0x5000 3 a ≡ false
            → within 0x6000 3 a ≡ false
            → v.bytes a ≡ writable_world.bytes a)
        × (v.kernel ≡ writable_world.kernel))
      (add simulation undoable 0x5000 0x6000 (record { units = undoable ∷ [] }) writable_world)
unfolding slice
add-IsCaptured_example =
    add-IsCaptured simulation undoable 0x5000 0x6000 writable_world
      (record {
        can_install = record {
          target = record { commit = refl; uniform = λ a h. refl };
          source = λ i h. refl;
        };
        can_restore = record {
          target = record { commit = refl; uniform = λ a h. refl };
          source = λ i h. refl;
        };
        same_size = refl;
        captured = refl;
      })
      (record {
        first_read = λ i h. refl;
        first_write = λ i h. refl;
        second_read = λ i h. refl;
        second_write = λ i h. refl;
        original_apart = omega arith;
        first_apart = omega arith;
        second_apart = omega arith;
        storage_apart = omega arith;
      })
      (record { units = undoable ∷ [] })
