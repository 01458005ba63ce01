-- ===== src/Llmo/Unprotect.antt =====
-- `MemoryProt` and `scoped_unprotect` of memwrapper/x86/memwrapper_llmo.hpp. A constructor is a
-- command that returns the object; `unprotected` is a block with such an object at its head, whose
-- destructor runs at the block's end.
pub mod Scope
use memwrapper.Base.{ℕ, Bool, if◌then◌else◌}
use memwrapper.Machine.{M, pure, ◌>>=◌, ◌>>◌, kernel_call}
use memwrapper.Windows.{Windows}

pub data MemoryProt : Type 0 where
  none no_access read_only read_write write_copy : MemoryProt
  execute execute_read execute_read_write execute_write_copy : MemoryProt

pub record ScopedUnprotect : Type 0 where
  pub pointer : ℕ
  pub size : ℕ
  pub protection : ℕ
  pub result : Bool

pub good : ScopedUnprotect → Bool
good u = u.result

module _ (win : Windows) where
  open win use {Kernel}

  unfoldable pub convert_memory_protection_constant : MemoryProt → ℕ
  convert_memory_protection_constant no_access = win.page_noaccess
  convert_memory_protection_constant read_only = win.page_readonly
  convert_memory_protection_constant read_write = win.page_readwrite
  convert_memory_protection_constant write_copy = win.page_writecopy
  convert_memory_protection_constant execute = win.page_execute
  convert_memory_protection_constant execute_read = win.page_execute_read
  convert_memory_protection_constant execute_read_write = win.page_execute_readwrite
  convert_memory_protection_constant execute_write_copy = win.page_execute_writecopy
  convert_memory_protection_constant none = 0

  unfoldable pub construct : (pointer size : ℕ) → MemoryProt → M Kernel ScopedUnprotect
  unfolding convert_memory_protection_constant
  construct pointer size prot = do
    let new_protect = convert_memory_protection_constant prot
    (result, protection) ← kernel_call (win.virtual_protect pointer size new_protect)
    pure (record { pointer = pointer; size = size; protection = protection; result = result })

  unfoldable pub destroy : ScopedUnprotect → M Kernel (Unit {0})
  unfolding good
  destroy u =
      if good u
      then (do _ ← kernel_call (win.virtual_protect u.pointer u.size u.protection); pure tt)
      else pure tt

  -- `{ scoped_unprotect unprotect(pointer, size); body }`
  unfoldable pub unprotected : {A : Type 0} → (pointer size : ℕ) → M Kernel A → M Kernel A
  unfolding construct destroy
  unprotected pointer size body = do
    unprotect ← construct pointer size execute_read_write
    value ← body
    destroy unprotect
    pure value
