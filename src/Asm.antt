-- ===== src/Asm.antt =====
-- asm_allocator of memwrapper/x86/memwrapper_allocator.hpp: a few x86 instructions written through
-- a basic_allocator.
pub mod Decoder
pub mod Appends
pub mod Emits
pub mod Processor
pub mod Nops
pub mod Encoding
use memwrapper.Base.{ℕ, ◌+◌, ◌*◌, ◌%◌, Bool, byte, sub32, ◌==◌, if◌then◌else◌}
use memwrapper.Machine.{M, pure, ◌>>=◌}
use memwrapper.Windows.{Windows}
use memwrapper.Detail.{get_relative_address, jump_oplen}
use memwrapper.Allocator
use memwrapper.Allocator.{BasicAllocator, now, db, dbvalue}

pub data Registers : Type 0 where
  eax ecx edx ebx esp ebp esi edi : Registers

-- static_cast<uint8_t>(reg86)
abbrev pub code : Registers → ℕ
code eax = 0
code ecx = 1
code edx = 2
code ebx = 3
code esp = 4
code ebp = 5
code esi = 6
code edi = 7

abbrev pub is_esp : Registers → Bool
is_esp r = code r == 4

abbrev pub is_eax : Registers → Bool
is_eax r = code r == 0

module _ (win : Windows) where
  open win use {Kernel}

  unfoldable pub construct : (size : ℕ) → M Kernel BasicAllocator
  construct size = Allocator.construct win size

  unfoldable pub jmp : (to : ℕ) → BasicAllocator → M Kernel BasicAllocator
  jmp to a = do
    let rel32 = get_relative_address to (now a) jump_oplen
    a' ← db win 0xe9 a
    dbvalue win 4 rel32 a'

  unfoldable pub push : Registers → BasicAllocator → M Kernel BasicAllocator
  push reg86 a = do a ← db win (byte (0x50 + code reg86)) a; pure a

  unfoldable pub pop : Registers → BasicAllocator → M Kernel BasicAllocator
  pop reg86 a = do a ← db win (byte (0x58 + code reg86)) a; pure a

  -- The register `target` from memory at the register `source` and an offset of one byte.
  unfoldable pub mov_load :
      (target source : Registers) (offset : ℕ) → BasicAllocator → M Kernel BasicAllocator
  mov_load target source offset a = do
    a ← db win 0x8b a
    a ←
        if offset == 0
        then db win (byte (0x08 * code target + code source)) a
        else db win (byte (0x08 * code target + code source + 0x40)) a
    a ← if is_esp source then db win 0x24 a else pure a
    a ← if offset == 0 then pure a else db win offset a
    pure a

  -- Memory at an address from the register `source`.
  unfoldable pub mov_store :
      (address : ℕ) (source : Registers) → BasicAllocator → M Kernel BasicAllocator
  mov_store address source a = do
    a ←
        if is_eax source
        then db win 0xa3 a
        else (do a ← db win 0x89 a; db win (byte (sub32 (0x0d + code source * 0x08) 0x08)) a)
    dbvalue win 4 address a
