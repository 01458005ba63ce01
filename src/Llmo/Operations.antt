-- ===== src/Llmo/Operations.antt =====
-- The low-level memory operations of memwrapper/x86/memwrapper_llmo.hpp. A value of type T is its
-- object representation, a list of `sizeof(T)` bytes.
pub mod Effects
pub mod Kept
pub mod Open
use memwrapper.Base.{ℕ, Bool, ◌&&◌, not, Option, List, ◌==◌, length}
use mathlib.Core.Option.{get_or}
use memwrapper.Machine.{
  M, pure, ◌>>=◌, ◌>>◌, kernel_call, read_bytes, write_bytes, memcpy, memset, memcmp, Sign,
}
use memwrapper.Windows.{Windows, MemoryBasicInformation, zero_information, cpu}
use memwrapper.Llmo.Unprotect.{unprotected}

module _ (win : Windows) where
  open win use {Kernel}

  unfoldable pub flush_memory : (at size : ℕ) → M Kernel Bool
  flush_memory at size = kernel_call (win.flush_instruction_cache at size)

  unfoldable pub read_memory : (at size_of_t : ℕ) → M Kernel (List ℕ)
  unfolding unprotected
  read_memory at size_of_t = unprotected win at size_of_t (read_bytes (cpu win) at size_of_t)

  -- A change of a range, and the flush of that range that ends each function.
  unfoldable pub flushed : (at size : ℕ) → M Kernel (Unit {0}) → M Kernel (Unit {0})
  unfolding flush_memory
  flushed at size change = do change; _ ← flush_memory at size; pure tt

  unfoldable pub write_memory : (at : ℕ) (value : List ℕ) → M Kernel (Unit {0})
  unfolding unprotected flushed
  write_memory at value =
      unprotected win at (length value) (flushed at (length value) (write_bytes (cpu win) at value))

  unfoldable pub fill_memory : (at value size : ℕ) → M Kernel (Unit {0})
  unfolding unprotected flushed
  fill_memory at value size =
      unprotected win at size (flushed at size (memset (cpu win) at value size))

  unfoldable pub copy_memory : (dst src size : ℕ) → M Kernel (Unit {0})
  unfolding unprotected flushed
  copy_memory dst src size =
      unprotected win dst size (flushed dst size (memcpy (cpu win) dst src size))

  unfoldable pub compare_memory : (buff1 buff2 size : ℕ) → M Kernel Sign
  unfolding unprotected
  compare_memory buff1 buff2 size =
      unprotected win buff1 size (unprotected win buff2 size (memcmp (cpu win) buff1 buff2 size))

  -- A failed query leaves the zeros of `mbi{ 0 }`.
  unfoldable pub is_executable : ℕ → Kernel → Bool
  is_executable at k =
      let mbi = get_or (win.virtual_query at k) zero_information in
      (mbi.state == win.mem_commit) && not (mbi.protect == win.page_noaccess)
