-- ===== src/Tests/Search.antt =====
-- A search in a small image on the simulated operating system.
use memwrapper.Base.{◌≡◌, refl, some, arith, ◌==◌, if◌then◌else◌}
use memwrapper.Machine.{World, load, slice, read_bytes}
use memwrapper.Machine.Returns.{Returns}
use memwrapper.Windows.{MemoryBasicInformation}
use memwrapper.Windows.Simulation.{simulation, Pages}
use memwrapper.Detail.Bytes.{number}
use memwrapper.Llmo.Search.{
  StringView, compare_from, load_word, search_from, search_module, search_memory_pattern,
}
use memwrapper.Llmo.Search.First.{First, Reads, search_memory_pattern-First}
use memwrapper.Tests.Memory.{read_only}

-- At 0x10000 an image of 0x100 bytes with 0x55 0 0xec at 0x10010; the
-- pattern "\x55?\xec" at 0x3000 and its mask "x?x" at 0x3010.
abbrev image : World Pages
image = record {
  bytes = λ a.
      if a == 0x1003c
      then 0x80
      else if a == 0x10080
      then 0x50
      else if a == 0x10081
      then 0x45
      else if a == 0x100d1
      then 1
      else if a == 0x10010
      then 0x55
      else if a == 0x10012
      then 0xec
      else if a == 0x3000
      then 0x55
      else if a == 0x3001
      then b'?'
      else if a == 0x3002
      then 0xec
      else if a == 0x3010
      then b'x'
      else if a == 0x3011
      then b'?'
      else if a == 0x3012
      then b'x'
      else 0;
  kernel = read_only.kernel;
}

abbrev pattern : StringView
pattern = record { start = 0x3000; size = 3 }

abbrev mask : StringView
mask = record { start = 0x3010; size = 3 }

search_run : search_memory_pattern simulation 0x4000 pattern mask image ≡ some (0x10010, image)
unfolding search_memory_pattern search_module search_from compare_from load_word load read_bytes
    number
search_run = refl

information : MemoryBasicInformation
information = record { allocation_base = 0x10000; state = 0x1000; protect = 2 }

search_memory_pattern-First_example :
    Returns
      (Reads image (First image.bytes pattern mask 0x10000 0x10100))
      (search_memory_pattern simulation 0x4000 pattern mask image)
unfolding information slice number
search_memory_pattern-First_example =
    search_memory_pattern-First simulation 0x4000 0x100 pattern mask information image (omega arith)
      refl
      (record {
        dos = λ i h. refl;
        nt = λ i h. refl;
        optional = λ i h. refl;
        is_pe = refl;
        has_size = refl;
      })
      (record { image = λ i h. refl; characters = λ i h. refl; bytes = λ i h. refl })
      (record { ended = refl; nonzero = λ i h. ground arith })
