-- ===== src/Tests/Memory.antt =====
-- The memory operations on the simulated operating system.
use memwrapper.Base.{◌%◌, ◌≡◌, refl, none, [], ◌∷◌, ◌==◌, arith, if◌then◌else◌}
use memwrapper.Machine.{World, slice, overlay, positive, compare_bytes}
use memwrapper.Machine.Returns.{Returns}
use memwrapper.Windows.Simulation.{simulation, simulation-laws, Pages}
use memwrapper.Llmo.Operations.{read_memory, write_memory, fill_memory, copy_memory, compare_memory}
use memwrapper.Llmo.Operations.Effects.{
  Outcome, read_memory-slice, write_memory-overlay, fill_memory-overlay, copy_memory-overlay,
  copy_memory-fault, compare_memory-slice,
}
use memwrapper.Llmo.Operations.Kept.{IsOpen}

-- Every page may only be read, and the byte at an address is its low eight bits.
abbrev pub read_only : World Pages
read_only = record {
  bytes = λ a. a % 256;
  kernel = record { protections = λ page. 2; allocated = 0 };
}

-- The page at 0x2000 may not be accessed.
abbrev pub guarded : World Pages
guarded = record read_only {
  kernel = record { protections = λ page. if page == 2 then 1 else 2; allocated = 0 };
}

pub read_only-IsOpen : IsOpen simulation read_only.kernel 0x1010 4
read_only-IsOpen = record { commit = refl; uniform = λ a h. refl }

read_memory-slice_example :
    Returns
      (Outcome simulation simulation-laws guarded 0x2004 2
        (λ value f. (value ≡ 4 ∷ 5 ∷ []) × (f ≡ guarded.bytes)))
      (read_memory simulation 0x2004 2 guarded)
unfolding slice
read_memory-slice_example = read_memory-slice simulation simulation-laws 0x2004 2 guarded refl

write_memory-overlay_example :
    Returns
      (Outcome simulation simulation-laws guarded 0x2004 2
        (λ _ f. f ≡ overlay guarded.bytes 0x2004 (7 ∷ 8 ∷ [])))
      (write_memory simulation 0x2004 (7 ∷ 8 ∷ []) guarded)
write_memory-overlay_example =
    write_memory-overlay simulation simulation-laws 0x2004 (7 ∷ 8 ∷ []) guarded refl

fill_memory-overlay_example :
    Returns
      (Outcome simulation simulation-laws guarded 0x2004 3
        (λ _ f. f ≡ overlay guarded.bytes 0x2004 (0x90 ∷ 0x90 ∷ 0x90 ∷ [])))
      (fill_memory simulation 0x2004 0x190 3 guarded)
fill_memory-overlay_example =
    fill_memory-overlay simulation simulation-laws 0x2004 0x190 3 guarded refl

copy_memory-overlay_example :
    Returns
      (Outcome simulation simulation-laws guarded 0x2004 2
        (λ _ f. f ≡ overlay guarded.bytes 0x2004 (0x10 ∷ 0x11 ∷ [])))
      (copy_memory simulation 0x2004 0x1010 2 guarded)
unfolding slice
copy_memory-overlay_example =
    copy_memory-overlay simulation simulation-laws 0x2004 0x1010 2 guarded refl λ i h. ground arith

copy_memory-fault_example : copy_memory simulation 0x1010 0x2004 2 guarded ≡ none
copy_memory-fault_example =
    copy_memory-fault simulation simulation-laws 0x1010 0x2004 2 guarded refl (omega arith) refl
      refl

compare_memory-slice_example :
    Returns
      (Outcome simulation simulation-laws guarded 0x1010 2
        (λ sign f. (sign ≡ positive) × (f ≡ guarded.bytes)))
      (compare_memory simulation 0x1010 0x2004 2 guarded)
unfolding slice compare_bytes
compare_memory-slice_example =
    compare_memory-slice simulation simulation-laws 0x1010 0x2004 2 guarded refl refl (omega arith)
      (λ a h. ground arith) (λ a h. ground arith)
