-- ===== src/Scoped/Write.antt =====
-- scoped_write<T>. Its method `install` calls `read_memory` with two arguments, which no overload
-- takes, so the method cannot be instantiated and has no model.
pub mod Laws
use memwrapper.Base.{ℕ, Bool, true, false, List, if◌then◌else◌}
use memwrapper.Machine.{M, pure, ◌>>=◌, ◌>>◌}
use memwrapper.Windows.{Windows}
use memwrapper.Llmo.Operations.{read_memory, write_memory}

pub record ScopedWrite : Type 0 where
  pub pointer : ℕ
  pub initialized : Bool
  pub backup : List ℕ

module _ (win : Windows) where
  open win use {Kernel}

  unfoldable pub construct : (at size_of_t : ℕ) (value : List ℕ) → M Kernel ScopedWrite
  construct at size_of_t value = do
    previous ← read_memory win at size_of_t
    let object : ScopedWrite = record { pointer = at; initialized = true; backup = previous }
    write_memory win at value
    pure object

  unfoldable pub restore : ScopedWrite → M Kernel ScopedWrite
  restore s =
      if s.initialized
      then (do write_memory win s.pointer s.backup; pure (record s { initialized = false }))
      else pure (record s { initialized = false })

  -- The destructor.
  unfoldable pub destroy : ScopedWrite → M Kernel (Unit {0})
  unfolding restore
  destroy s = do _ ← restore s; pure tt

  -- `{ scoped_write<T> raii{ ... }; body }`
  unfoldable pub block :
      (at size_of_t : ℕ) (value : List ℕ) → M Kernel (Unit {0}) → M Kernel (Unit {0})
  block at size_of_t value body = do raii ← construct at size_of_t value; body; destroy raii
