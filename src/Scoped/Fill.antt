-- ===== src/Scoped/Fill.antt =====
-- scoped_fill<bufsize>. The backup `m_buf` stands in memory, at `buf`.
pub mod Laws
use memwrapper.Base.{ℕ, Bool, true, false, if◌then◌else◌}
use memwrapper.Machine.{M, pure, ◌>>=◌, ◌>>◌}
use memwrapper.Windows.{Windows}
use memwrapper.Llmo.Operations.{copy_memory, fill_memory}

pub record ScopedFill : Type 0 where
  pub pointer : ℕ
  pub initialized : Bool
  -- The address of `m_buf`.
  pub buf : ℕ

module _ (win : Windows) (bufsize : ℕ) where
  open win use {Kernel}

  -- The object's own storage is given by the address of its buffer.
  unfoldable pub construct : (buf at value : ℕ) → M Kernel ScopedFill
  construct buf at value = do
    copy_memory win buf at bufsize
    fill_memory win at value bufsize
    pure (record { pointer = at; initialized = true; buf = buf })

  unfoldable pub install : ScopedFill → (at value : ℕ) → M Kernel ScopedFill
  install s at value = do
    let s' = record s { pointer = at }
    copy_memory win s'.buf at bufsize
    fill_memory win at value bufsize
    pure (record s' { initialized = true })

  unfoldable pub restore : ScopedFill → M Kernel ScopedFill
  restore s =
      if s.initialized
      then (do copy_memory win s.pointer s.buf bufsize; pure (record s { initialized = false }))
      else pure (record s { initialized = false })

  -- The destructor.
  unfoldable pub destroy : ScopedFill → M Kernel (Unit {0})
  unfolding restore
  destroy s = do _ ← restore s; pure tt

  -- `{ scoped_fill<bufsize> raii{ ... }; body }`
  unfoldable pub block : (buf at value : ℕ) → M Kernel (Unit {0}) → M Kernel (Unit {0})
  block buf at value body = do raii ← construct buf at value; body; destroy raii
