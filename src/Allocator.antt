-- ===== src/Allocator.antt =====
-- basic_allocator of memwrapper/x86/memwrapper_allocator.hpp: a cursor in a region of executable
-- memory. A method that returns `*this` returns the allocator as it is afterwards. `dbvalues`
-- cannot be instantiated: `std::forward<Tail>` takes no `const Tail`.
pub mod Writes
pub mod Fresh
pub mod Appends
use memwrapper.Base.{
  ℕ, zero, suc, ◌+◌, Bool, List, [], ◌∷◌, add32, sub32, byte, ltb, leb, if◌then◌else◌,
}
use memwrapper.Machine.{M, pure, ◌>>=◌, ◌>>◌, kernel_call, load, store, and_then, World}
use memwrapper.Windows.{Windows, cpu}
use memwrapper.Detail.{align_value, byteof}
use memwrapper.Llmo.Operations.{flush_memory}
use mathlib.Core.Option.{some}

abbrev pub page_size_4kb : ℕ
page_size_4kb = 4096

pub record BasicAllocator : Type 0 where
  pub code : ℕ
  pub size : ℕ
  pub offset : ℕ

abbrev pub begin : BasicAllocator → ℕ
begin a = a.code

-- &m_code[m_offset]
abbrev pub now : BasicAllocator → ℕ
now a = a.code + a.offset

-- &m_code[m_size - 1u]
abbrev pub end : BasicAllocator → ℕ
end a = a.code + sub32 a.size 1

abbrev pub get : (offset : ℕ) → BasicAllocator → ℕ
get offset a = if leb a.size offset then end a else a.code + offset

abbrev pub get_offset : BasicAllocator → ℕ
get_offset a = a.offset

abbrev pub set_offset : (offset : ℕ) → BasicAllocator → BasicAllocator
set_offset offset a = if leb a.size offset then a else record a { offset = offset }

module _ (win : Windows) where
  open win use {Kernel, page_size}

  -- The result of VirtualAlloc is not tested.
  unfoldable pub construct : (size : ℕ) → M Kernel BasicAllocator
  construct size w =
      let m_size = align_value size page_size in
      let ((code, bytes), kernel) = win.virtual_alloc m_size w.bytes w.kernel in
      some (
        record { code = code; size = m_size; offset = 0 },
        record { bytes = bytes; kernel = kernel },
      )

  unfoldable pub db : (opcode : ℕ) → BasicAllocator → M Kernel BasicAllocator
  db opcode a = if ltb a.size (add32 a.offset 1) then pure a else (do
    store (cpu win) (a.code + a.offset) opcode
    pure (record a { offset = add32 a.offset 1 }))

  -- The loop over the bytes of an object that is no part of the modelled memory.
  unfoldable pub db_bytes : List ℕ → BasicAllocator → M Kernel BasicAllocator
  db_bytes [] a = pure a
  db_bytes (b ∷ bs) a = do a' ← db b a; db_bytes bs a'

  -- The same loop over an object in memory, which is read as it is written.
  unfoldable pub db_object : (object size : ℕ) → BasicAllocator → M Kernel BasicAllocator
  db_object object zero a = pure a
  db_object object (suc n) a = do
    b ← load (cpu win) object
    a' ← db b a
    db_object (object + 1) n a'

  -- A value of an unsigned type of `size_of_t` bytes.
  unfoldable pub dbvalue : (size_of_t value : ℕ) → BasicAllocator → M Kernel BasicAllocator
  dbvalue size_of_t value a =
      if ltb 1 size_of_t then db_bytes (byteof size_of_t value) a else db (byte value) a

  unfoldable pub free : BasicAllocator → M Kernel (Unit {0})
  free a = do _ ← kernel_call (win.virtual_free a.code); pure tt

  unfoldable pub ready : BasicAllocator → M Kernel (Unit {0})
  ready a = do _ ← flush_memory win a.code a.size; pure tt
