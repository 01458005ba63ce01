-- ===== src/Scoped/Copy.antt =====
-- scoped_copy<bufsize>. `m_buf` is part of the object, so the backup stands in memory, at `buf`.
pub mod Laws
use memwrapper.Base.{ℕ, Bool, true, false, if◌then◌else◌}
use memwrapper.Machine.{M, pure, ◌>>=◌, ◌>>◌}
use memwrapper.Windows.{Windows}
use memwrapper.Llmo.Operations.{copy_memory}

pub record ScopedCopy : Type 0 where
  pub pointer : ℕ
  pub initialized : Bool
  -- The address of `m_buf`.
  pub buf : ℕ

module _ (win : Windows) (bufsize : ℕ) where
  open win use {Kernel}

  -- The object's own storage is given by the address of its buffer.
  unfoldable pub construct : (buf at source : ℕ) → M Kernel ScopedCopy
  construct buf at source = do
    copy_memory win buf at bufsize
    copy_memory win at source bufsize
    pure (record { pointer = at; initialized = true; buf = buf })

  unfoldable pub install : ScopedCopy → (at source : ℕ) → M Kernel ScopedCopy
  install s at source = do
    let s' = record s { pointer = at }
    copy_memory win s'.buf at bufsize
    copy_memory win at source bufsize
    pure (record s' { initialized = true })

  unfoldable pub restore : ScopedCopy → M Kernel ScopedCopy
  restore s =
      if s.initialized
      then (do copy_memory win s.pointer s.buf bufsize; pure (record s { initialized = false }))
      else pure (record s { initialized = false })

  -- The destructor.
  unfoldable pub destroy : ScopedCopy → M Kernel (Unit {0})
  unfolding restore
  destroy s = do _ ← restore s; pure tt

  -- `{ scoped_copy<bufsize> raii{ ... }; body }`
  unfoldable pub block : (buf at source : ℕ) → M Kernel (Unit {0}) → M Kernel (Unit {0})
  block buf at source body = do raii ← construct buf at source; body; destroy raii
