-- ===== src/Scoped/Write/Laws.antt =====
-- A scoped_write puts its value in place and takes it back, whatever happens in between.
use memwrapper.Base.{ℕ, ◌≡◌, ap, ◌∙◌, some, true, List, arith, length, within, if◌then◌else◌}
use memwrapper.Machine.{Bytes, World, M, slice, overlay}
use memwrapper.Machine.Overlay.{overlay-slice, length-slice}
use memwrapper.Machine.Returns
use memwrapper.Machine.Returns.{Returns, returns}
use memwrapper.Windows.{Windows, WindowsLaws}
use memwrapper.Llmo.Unprotect.Scope.{Same, Same-trans}
use memwrapper.Llmo.Operations.Kept.{IsOpen, IsOpen-Same, Kept, read_memory-Kept, write_memory-Kept}
use memwrapper.Scoped.Write.{ScopedWrite, construct, restore, destroy, block}

abbrev installed : (at : ℕ) (backup : List ℕ) → ScopedWrite
installed at backup = record { pointer = at; initialized = true; backup = backup }

module _ (win : Windows) (laws : WindowsLaws win) where
  open win use {Kernel}

  construct-Kept :
      (at n : ℕ) (value : List ℕ) (w : World Kernel)
      → IsOpen win w.kernel at n
      → length value ≡ n
      → Returns
          (Kept win w
            (λ s f. (s ≡ installed at (slice w.bytes at n)) × (f ≡ overlay w.bytes at value)))
          (construct win at n value w)
  unfolding construct
  construct-Kept at n value w o e =
      Returns.bind (read_memory-Kept win laws at n w o) λ previous u (done, s).
        Returns.bind (write_memory-Kept win laws at value u (rw e (IsOpen-Same win at n o s)))
          λ _ v (f, t). returns (
            (ap (installed at) done.0, f ∙ ap (λ g. overlay g at value) done.1),
            Same-trans win s t,
          )

  -- The destructor writes the backup.
  destroy-Kept :
      (at : ℕ) (backup : List ℕ) (s : ScopedWrite) (w : World Kernel)
      → s ≡ installed at backup
      → IsOpen win w.kernel at (length backup)
      → Returns (Kept win w (λ _ f. f ≡ overlay w.bytes at backup)) (destroy win s w)
  unfolding destroy
  destroy-Kept at backup s w e o = rw e (
      Returns.bind
        (Returns.bind (write_memory-Kept win laws at backup w o) λ _ v done. returns done)
        λ _ v done. returns done)

  -- On an open range, a block with a scoped_write at its head runs its body where the range holds
  -- the value, all else is as before, and every protection too. If the body returns with the same
  -- kernel, then whatever the bytes are by then, the block returns, the range holds its first
  -- bytes again, and nothing else has changed since the body.
  pub scoped_write-undo :
      (at n : ℕ) (value : List ℕ) (body : M Kernel (Unit {0})) (g : Bytes) (w : World Kernel)
      → IsOpen win w.kernel at n
      → length value ≡ n
      → ((u : World Kernel)
          → u.bytes ≡ overlay w.bytes at value
          → Same win w.kernel u.kernel
          → Returns (Kept win u (λ _ f. f ≡ g)) (body u))
      → Returns
          (Kept win w (λ _ f. (a : ℕ) → f a ≡ (if within at n a then w.bytes a else g a)))
          (block win at n value body w)
  unfolding block
  scoped_write-undo at n value body g w o e run =
      Returns.bind (construct-Kept at n value w o e) λ s u (done, same).
        Returns.bind (run u done.1 same) λ _ v (same_g, same').
          let kept = Same-trans win same same' in
          Returns.mono
            (destroy-Kept at (slice w.bytes at n) s v done.0
              (rw (length-slice w.bytes at n) (IsOpen-Same win at n o kept)))
            λ _ x (f, t). (
              λ a.
                  ap (λ h. h a) f
                  ∙ overlay-slice v.bytes w.bytes at n a
                  ∙ ap (λ (h : Bytes). if within at n a then w.bytes a else h a) same_g,
              Same-trans win kept t,
            )

module _ (win : Windows) where
  open win use {Kernel}

  -- Where `restore` returns, the object restores no more: a second call, such as the
  -- destructor's, changes neither the object nor the memory.
  pub restore-restore :
      (s s' : ScopedWrite) (w u : World Kernel)
      → restore win s w ≡ some (s', u)
      → restore win s' u ≡ some (s', u)
  unfolding restore
  restore-restore s s' w u h = ground arith
