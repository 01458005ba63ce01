-- ===== src/Tests/Allocator.antt =====
-- The allocator's cursor at the end of a small region.
use memwrapper.Base.{◌≡◌, refl, some, [], ◌∷◌, arith}
use memwrapper.Machine.{World, overlay}
use memwrapper.Windows.Simulation.{simulation, Pages}
use memwrapper.Allocator.{BasicAllocator, db_bytes}
use memwrapper.Allocator.Writes.{db_bytes-overlay}
use memwrapper.Tests.Memory.{read_only}

abbrev pub writable_world : World Pages
writable_world = record read_only { kernel = record { protections = λ page. 0x40; allocated = 0 } }

-- Room for two bytes is left.
abbrev nearly_full : BasicAllocator
nearly_full = record { code = 0x5000; size = 4096; offset = 4094 }

db_bytes-overlay_example :
    db_bytes simulation (0xe9 ∷ 1 ∷ 2 ∷ 3 ∷ 4 ∷ []) nearly_full writable_world
    ≡ some (
      record nearly_full { offset = 4096 },
      record writable_world { bytes = overlay writable_world.bytes 0x5ffe (0xe9 ∷ 1 ∷ []) },
    )
db_bytes-overlay_example =
    db_bytes-overlay simulation (0xe9 ∷ 1 ∷ 2 ∷ 3 ∷ 4 ∷ []) nearly_full writable_world (omega arith)
      (λ i h. refl)
