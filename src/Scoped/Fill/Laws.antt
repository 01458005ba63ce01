-- ===== src/Scoped/Fill/Laws.antt =====
-- A scoped_fill puts its value in place and takes it back.
use memwrapper.Base.{
  ℕ, ◌+◌, ◌<◌, ◌≡◌, refl, ap, ◌∙◌, some, true, arith, byte, replicate, length-replicate, within,
  if◌then◌else◌,
}
use memwrapper.Machine.{Bytes, World, M, slice, overlay}
use memwrapper.Machine.Returns
use memwrapper.Machine.Returns.{Returns, returns}
use memwrapper.Windows.{Windows, WindowsLaws}
use memwrapper.Llmo.Unprotect.Scope.{Same, Same-trans}
use memwrapper.Llmo.Operations.Kept.{IsOpen-Same, Kept, copy_memory-Kept, fill_memory-Kept}
use memwrapper.Scoped.Backup.{saved, overlay-saved, IsSite, IsSite-Same}
use memwrapper.Scoped.Fill.{ScopedFill, construct, install, restore, destroy, block}

abbrev installed : (buf at : ℕ) → ScopedFill
installed buf at = record { pointer = at; initialized = true; buf = buf }

module _ (win : Windows) (laws : WindowsLaws win) where
  open win use {Kernel}

  construct-Kept :
      (buf at value n : ℕ) (w : World Kernel)
      → IsSite win w.kernel buf at n
      → Returns
          (Kept win w (λ s f.
            (s ≡ installed buf at) × (f ≡ saved w.bytes buf at n (replicate n (byte value)))))
          (construct win n buf at value w)
  unfolding construct
  construct-Kept buf at value n w i =
      Returns.bind (copy_memory-Kept win laws buf at n w i.store i.target_read) λ _ u (f, s).
        Returns.bind (fill_memory-Kept win laws at value n u (IsOpen-Same win at n i.target s))
          λ _ v (g, t).
            returns
              ((refl, g ∙ ap (λ h. overlay h at (replicate n (byte value))) f), Same-trans win s t)

  destroy-Kept :
      (buf at n : ℕ) (s : ScopedFill) (w : World Kernel)
      → s ≡ installed buf at
      → IsSite win w.kernel buf at n
      → Returns
          (Kept win w (λ _ f. f ≡ overlay w.bytes at (slice w.bytes buf n)))
          (destroy win n s w)
  unfolding destroy
  destroy-Kept buf at n s w e i = rw e (
      Returns.bind
        (Returns.bind (copy_memory-Kept win laws at buf n w i.target i.store_read)
          λ _ v done. returns done)
        λ _ v done. returns done)

  -- Where the range and the object's buffer are open, readable and apart, a block with a
  -- scoped_fill at its head runs its body where each address of the range holds the value's low
  -- byte, the buffer the range's bytes, all else is as before, and every protection too.
  -- If the body returns with the same kernel and leaves the buffer alone, the block returns, the
  -- range holds its first bytes again, and nothing else has changed since the body.
  pub scoped_fill-undo :
      (buf at value n : ℕ) (body : M Kernel (Unit {0})) (g : Bytes) (w : World Kernel)
      → IsSite win w.kernel buf at n
      → ((i : ℕ)
          → i < n
          → g (buf + i) ≡ saved w.bytes buf at n (replicate n (byte value)) (buf + i))
      → ((u : World Kernel)
          → u.bytes ≡ saved w.bytes buf at n (replicate n (byte value))
          → Same win w.kernel u.kernel
          → Returns (Kept win u (λ _ f. f ≡ g)) (body u))
      → Returns
          (Kept win w (λ _ f. (a : ℕ) → f a ≡ (if within at n a then w.bytes a else g a)))
          (block win n buf at value body w)
  unfolding block
  scoped_fill-undo buf at value n body g w i left run =
      Returns.bind (construct-Kept buf at value n w i) λ s u (done, same).
        Returns.bind (run u done.1 same) λ _ v (same_g, same').
          let kept = Same-trans win same same' in
          Returns.mono (destroy-Kept buf at n s v done.0 (IsSite-Same win i kept)) λ _ x (f, t). (
            λ a.
                ap (λ h. h a) (f ∙ ap (λ h. overlay h at (slice h buf n)) same_g)
                ∙ overlay-saved w.bytes g buf at n (replicate n (byte value))
                    (length-replicate n (byte value)) i.apart left a,
            Same-trans win kept t,
          )

module _ (win : Windows) (n : ℕ) where
  open win use {Kernel}

  -- `install` forgets what the object held: it does what the constructor does with the same
  -- buffer, so a backup that was not restored is lost.
  pub install-construct :
      (s : ScopedFill) (at value : ℕ) (w : World Kernel)
      → install win n s at value w ≡ construct win n s.buf at value w
  unfolding install construct
  install-construct s at value w = refl

  -- Where `restore` returns, the object restores no more.
  pub restore-restore :
      (s s' : ScopedFill) (w u : World Kernel)
      → restore win n s w ≡ some (s', u)
      → restore win n s' u ≡ some (s', u)
  unfolding restore
  restore-restore s s' w u h = ground arith
