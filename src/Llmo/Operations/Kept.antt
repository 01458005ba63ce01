-- ===== src/Llmo/Operations/Kept.antt =====
-- The operations on ranges whose pages are committed and have one protection: every protection is
-- as before, so operations may follow one another.
use memwrapper.Base.{ℕ, ◌+◌, ◌≡◌, ◌∙◌, ap, true, Option, List, byte, length, replicate}
use memwrapper.Machine.{Bytes, World, slice, overlay}
use memwrapper.Machine.Returns
use memwrapper.Machine.Returns.{Returns}
use memwrapper.Machine.Run.{CanRead}
use memwrapper.Windows.{Windows, WindowsLaws, cpu}
use memwrapper.Llmo.Unprotect.Scope.{Same, Uniform, Uniform-Same, Protected-Same}
use memwrapper.Llmo.Operations.{read_memory, write_memory, fill_memory, copy_memory}
use memwrapper.Llmo.Operations.Effects.{
  Outcome, read_memory-slice, write_memory-overlay, fill_memory-overlay, copy_memory-overlay,
}

module _ (win : Windows) where
  open win use {Kernel, protection, committed}

  -- The pages of the range are committed and have one protection.
  pub record IsOpen (k : Kernel) (p n : ℕ) : Type 0 where
    pub commit : committed k p n ≡ true
    pub uniform : Uniform win k p n

  pub IsOpen-Same : {k k' : Kernel} (p n : ℕ) → IsOpen k p n → Same win k k' → IsOpen k' p n
  IsOpen-Same p n o s = record {
    commit = s.commits p n ∙ o.commit;
    uniform = Uniform-Same win p n o.uniform s;
  }

  pub CanRead-Same :
      {k k' : Kernel} (p n : ℕ) → CanRead (cpu win) k p n → Same win k k' → CanRead (cpu win) k' p n
  CanRead-Same p n r s i h = ap win.readable (s.protections (p + i)) ∙ r i h

  -- A result and final bytes as `P` says, and the kernel as before.
  abbrev pub Kept : {A : Type 0} → World Kernel → (A → Bytes → Type 0) → A → World Kernel → Type 0
  Kept w P a v = P a v.bytes × Same win w.kernel v.kernel

module _ (win : Windows) (laws : WindowsLaws win) where
  open win use {Kernel}

  kept :
      {A : Type 0} {r : Option (A × World Kernel)} (P : A → Bytes → Type 0) (p n : ℕ)
      (w : World Kernel)
      → IsOpen win w.kernel p n
      → Returns (Outcome win laws w p n P) r
      → Returns (Kept win w P) r
  kept P p n w o r = Returns.mono r λ a v (done, s). (done, Protected-Same win p n o.uniform s)

  pub read_memory-Kept :
      (at n : ℕ) (w : World Kernel)
      → IsOpen win w.kernel at n
      → Returns
          (Kept win w (λ value f. (value ≡ slice w.bytes at n) × (f ≡ w.bytes)))
          (read_memory win at n w)
  read_memory-Kept at n w o = kept _ at n w o (read_memory-slice win laws at n w o.commit)

  pub write_memory-Kept :
      (at : ℕ) (value : List ℕ) (w : World Kernel)
      → IsOpen win w.kernel at (length value)
      → Returns (Kept win w (λ _ f. f ≡ overlay w.bytes at value)) (write_memory win at value w)
  write_memory-Kept at value w o =
      kept _ at (length value) w o (write_memory-overlay win laws at value w o.commit)

  pub fill_memory-Kept :
      (at value n : ℕ) (w : World Kernel)
      → IsOpen win w.kernel at n
      → Returns
          (Kept win w (λ _ f. f ≡ overlay w.bytes at (replicate n (byte value))))
          (fill_memory win at value n w)
  fill_memory-Kept at value n w o =
      kept _ at n w o (fill_memory-overlay win laws at value n w o.commit)

  pub copy_memory-Kept :
      (dst src n : ℕ) (w : World Kernel)
      → IsOpen win w.kernel dst n
      → CanRead (cpu win) w.kernel src n
      → Returns
          (Kept win w (λ _ f. f ≡ overlay w.bytes dst (slice w.bytes src n)))
          (copy_memory win dst src n w)
  copy_memory-Kept dst src n w o r =
      kept _ dst n w o (copy_memory-overlay win laws dst src n w o.commit r)
