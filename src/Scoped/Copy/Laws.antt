-- ===== src/Scoped/Copy/Laws.antt =====
-- A scoped_copy puts its data in place and takes it back.
use memwrapper.Base.{
  ℕ, ◌+◌, ◌<◌, ◌≡◌, refl, ap, ◌∙◌, some, true, arith, Apart, within, if◌then◌else◌,
}
use memwrapper.Machine.{Bytes, World, M, slice, overlay}
use memwrapper.Machine.Overlay.{length-slice, slice-overlay_apart}
use memwrapper.Machine.Returns
use memwrapper.Machine.Returns.{Returns, returns}
use memwrapper.Machine.Run.{CanRead}
use memwrapper.Windows.{Windows, WindowsLaws, cpu}
use memwrapper.Llmo.Unprotect.Scope.{Same, Same-trans}
use memwrapper.Llmo.Operations.Kept.{IsOpen-Same, CanRead-Same, Kept, copy_memory-Kept}
use memwrapper.Scoped.Backup.{saved, overlay-saved, IsSite, IsSite-Same}
use memwrapper.Scoped.Copy.{ScopedCopy, construct, install, restore, destroy, block}

abbrev installed : (buf at : ℕ) → ScopedCopy
installed buf at = record { pointer = at; initialized = true; buf = buf }

module _ (win : Windows) (laws : WindowsLaws win) where
  open win use {Kernel}

  construct-Kept :
      (buf at source n : ℕ) (w : World Kernel)
      → IsSite win w.kernel buf at n
      → CanRead (cpu win) w.kernel source n
      → Apart buf n source n
      → Returns
          (Kept win w
            (λ s f. (s ≡ installed buf at) × (f ≡ saved w.bytes buf at n (slice w.bytes source n))))
          (construct win n buf at source w)
  unfolding construct
  construct-Kept buf at source n w i r apart =
      Returns.bind (copy_memory-Kept win laws buf at n w i.store i.target_read) λ _ u (f, s).
        Returns.bind
          (copy_memory-Kept win laws at source n u (IsOpen-Same win at n i.target s)
            (CanRead-Same win source n r s))
          λ _ v (g, t). returns (
            (
              refl,
              g
                  ∙ ap (λ h. overlay h at (slice h source n)) f
                  ∙ ap (overlay (overlay w.bytes buf (slice w.bytes at n)) at) (
                      slice-overlay_apart w.bytes buf (slice w.bytes at n) source n
                        (rw (length-slice w.bytes at n) apart)),
            ),
            Same-trans win s t,
          )

  destroy-Kept :
      (buf at n : ℕ) (s : ScopedCopy) (w : World Kernel)
      → s ≡ installed buf at
      → IsSite win w.kernel buf at n
      → Returns
          (Kept win w (λ _ f. f ≡ overlay w.bytes at (slice w.bytes buf n)))
          (destroy win n s w)
  unfolding destroy
  destroy-Kept buf at n s w e i = rw e (
      Returns.bind
        (Returns.bind (copy_memory-Kept win laws at buf n w i.target i.store_read)
          λ _ v done. returns done)
        λ _ v done. returns done)

  -- Where the range and the object's buffer are open, readable and apart, and the data readable
  -- and apart from the buffer, a block with a scoped_copy at its head runs its body where the range
  -- holds the data, the buffer the range's bytes, all else is as before, and every protection too.
  -- If the body returns with the same kernel and leaves the buffer alone, the block returns, the
  -- range holds its first bytes again, and nothing else has changed since the body.
  pub scoped_copy-undo :
      (buf at source n : ℕ) (body : M Kernel (Unit {0})) (g : Bytes) (w : World Kernel)
      → IsSite win w.kernel buf at n
      → CanRead (cpu win) w.kernel source n
      → Apart buf n source n
      → ((i : ℕ) → i < n → g (buf + i) ≡ saved w.bytes buf at n (slice w.bytes source n) (buf + i))
      → ((u : World Kernel)
          → u.bytes ≡ saved w.bytes buf at n (slice w.bytes source n)
          → Same win w.kernel u.kernel
          → Returns (Kept win u (λ _ f. f ≡ g)) (body u))
      → Returns
          (Kept win w (λ _ f. (a : ℕ) → f a ≡ (if within at n a then w.bytes a else g a)))
          (block win n buf at source body w)
  unfolding block
  scoped_copy-undo buf at source n body g w i r apart left run =
      Returns.bind (construct-Kept buf at source n w i r apart) λ s u (done, same).
        Returns.bind (run u done.1 same) λ _ v (same_g, same').
          let kept = Same-trans win same same' in
          Returns.mono (destroy-Kept buf at n s v done.0 (IsSite-Same win i kept)) λ _ x (f, t). (
            λ a.
                ap (λ h. h a) (f ∙ ap (λ h. overlay h at (slice h buf n)) same_g)
                ∙ overlay-saved w.bytes g buf at n (slice w.bytes source n)
                    (length-slice w.bytes source n) i.apart left a,
            Same-trans win kept t,
          )

module _ (win : Windows) (n : ℕ) where
  open win use {Kernel}

  -- `install` forgets what the object held: it does what the constructor does with the same
  -- buffer, so a backup that was not restored is lost.
  pub install-construct :
      (s : ScopedCopy) (at source : ℕ) (w : World Kernel)
      → install win n s at source w ≡ construct win n s.buf at source w
  unfolding install construct
  install-construct s at source w = refl

  -- Where `restore` returns, the object restores no more.
  pub restore-restore :
      (s s' : ScopedCopy) (w u : World Kernel)
      → restore win n s w ≡ some (s', u)
      → restore win n s' u ≡ some (s', u)
  unfolding restore
  restore-restore s s' w u h = ground arith
