-- ===== src/Llmo/Operations/Effects.antt =====
-- What each memory operation does to the bytes and to the protections, where the range is
-- committed: it never faults, whatever the protections were.
use memwrapper.Base.{
  ℕ, sym, arith, ◌<◌, ◌≡◌, ap, ◌∙◌, true, false, some, none, List, byte, length, replicate,
}
use memwrapper.Machine.{
  Bytes, World, M, read_bytes, write_bytes, memset, memcpy, memcmp, slice, overlay, Sign,
  compare_bytes,
}
use memwrapper.Machine.Returns
use memwrapper.Machine.Returns.{Returns, returns}
use memwrapper.Machine.Run.{
  CanRead, read_bytes-slice, write_bytes-overlay, memcpy-overlay, memset-overlay, memcmp-slice,
  memcpy-fault,
}
use memwrapper.Windows.{Windows, WindowsLaws, cpu, in_pages}
use memwrapper.Llmo.Unprotect.{unprotected}
use memwrapper.Llmo.Unprotect.Scope.{
  in_pages-add, Uniform, Protected-Same, unprotected-fault, Same, Same-refl, Protected,
  Protected-CanRead, Protected-CanWrite, Protected-CanRead_other, unprotected-Protected,
}
use memwrapper.Llmo.Operations.{
  flushed, read_memory, write_memory, fill_memory, copy_memory, compare_memory,
}

module _ (win : Windows) (laws : WindowsLaws win) where
  open win use {Kernel, protection, committed}

  -- A result and final bytes as `P` says; the pages of the range have the first one's protection,
  -- and the others their own.
  abbrev pub Outcome :
      {A : Type 0} → World Kernel → (p n : ℕ) → (A → Bytes → Type 0) → A → World Kernel → Type 0
  Outcome w p n P a v = P a v.bytes × Protected win p n (protection w.kernel p) w.kernel v.kernel

  pub flush-Same : (p n : ℕ) (k : Kernel) → Same win k (win.flush_instruction_cache p n k).1
  flush-Same p n k = record {
    protections = laws.flush_protection p n k;
    commits = laws.flush_committed p n k;
    reserves = laws.flush_reserved p n k;
  }

  -- `read_memory` returns the bytes of the range, and changes none.
  pub read_memory-slice :
      (at n : ℕ) (w : World Kernel)
      → committed w.kernel at n ≡ true
      → Returns
          (Outcome w at n (λ value f. (value ≡ slice w.bytes at n) × (f ≡ w.bytes)))
          (read_memory win at n w)
  unfolding read_memory
  read_memory-slice at n w c =
      unprotected-Protected win laws (λ value f. (value ≡ slice w.bytes at n) × (f ≡ w.bytes)) at n
        (read_bytes (cpu win) at n) w c
        λ u e s.
          rw (read_bytes-slice (cpu win) at n u (Protected-CanRead win laws at n s))
            (returns ((ap (λ f. slice f at n) e, e), Same-refl win u.kernel))

  -- A block that changes the bytes by `g` once its range may be written, and flushes.
  change-Outcome :
      (p n : ℕ) (change : M Kernel (Unit {0})) (g : Bytes → Bytes) (w : World Kernel)
      → committed w.kernel p n ≡ true
      → ((u : World Kernel)
          → Protected win p n win.page_execute_readwrite w.kernel u.kernel
          → change u ≡ some (tt, record u { bytes = g u.bytes }))
      → Returns
          (Outcome w p n (λ _ f. f ≡ g w.bytes))
          (unprotected win p n (flushed win p n change) w)
  unfolding flushed
  change-Outcome p n change g w c run =
      unprotected-Protected win laws (λ _ f. f ≡ g w.bytes) p n (flushed win p n change) w c
        λ u e s. rw (run u s) (returns (ap g e, flush-Same p n u.kernel))

  -- `write_memory` puts the value there.
  pub write_memory-overlay :
      (at : ℕ) (value : List ℕ) (w : World Kernel)
      → committed w.kernel at (length value) ≡ true
      → Returns
          (Outcome w at (length value) (λ _ f. f ≡ overlay w.bytes at value))
          (write_memory win at value w)
  unfolding write_memory
  write_memory-overlay at value w c =
      change-Outcome at (length value) (write_bytes (cpu win) at value) (λ f. overlay f at value) w
        c
        λ u s.
          write_bytes-overlay (cpu win) at value u (Protected-CanWrite win laws at (length value) s)

  -- `fill_memory` puts the low byte of the value at each address of the range.
  pub fill_memory-overlay :
      (at value n : ℕ) (w : World Kernel)
      → committed w.kernel at n ≡ true
      → Returns
          (Outcome w at n (λ _ f. f ≡ overlay w.bytes at (replicate n (byte value))))
          (fill_memory win at value n w)
  unfolding fill_memory
  fill_memory-overlay at value n w c =
      change-Outcome at n (memset (cpu win) at value n)
        (λ f. overlay f at (replicate n (byte value))) w c
        λ u s. memset-overlay (cpu win) at value n u (Protected-CanWrite win laws at n s)

  -- `copy_memory` puts the source's bytes at the destination. The source is not unprotected.
  pub copy_memory-overlay :
      (dst src n : ℕ) (w : World Kernel)
      → committed w.kernel dst n ≡ true
      → CanRead (cpu win) w.kernel src n
      → Returns
          (Outcome w dst n (λ _ f. f ≡ overlay w.bytes dst (slice w.bytes src n)))
          (copy_memory win dst src n w)
  unfolding copy_memory
  copy_memory-overlay dst src n w c r =
      change-Outcome dst n (memcpy (cpu win) dst src n) (λ f. overlay f dst (slice f src n)) w c
        λ u s.
          memcpy-overlay (cpu win) dst src n u (Protected-CanRead_other win laws dst n src n s r)
            (Protected-CanWrite win laws dst n s)

  -- `copy_memory` from memory that may not be read is an access violation, unless the source's
  -- first byte lies on a page of the destination.
  pub copy_memory-fault :
      (dst src n : ℕ) (w : World Kernel)
      → committed w.kernel dst n ≡ true
      → 0 < n
      → in_pages win dst n src ≡ false
      → win.readable (protection w.kernel src) ≡ false
      → copy_memory win dst src n w ≡ none
  unfolding copy_memory flushed
  copy_memory-fault dst src n w c pos apart bad =
      unprotected-fault win laws dst n (flushed win dst n (memcpy (cpu win) dst src n)) w c
        λ u s. rw (memcpy-fault (cpu win) dst src n u pos (rw (s.protections src, apart) bad))

  first_page : (p n : ℕ) → 0 < n → in_pages win p n p ≡ true
  first_page p n h = ap (in_pages win p n) (omega arith) ∙ in_pages-add win laws p n 0 h

  -- Where two ranges share no page, the second stays uniform while the first is unprotected.
  Uniform-apart :
      {k k' : Kernel} (p q n m prot : ℕ)
      → 0 < m
      → Protected win p n prot k k'
      → ((a : ℕ) → in_pages win q m a ≡ true → in_pages win p n a ≡ false)
      → Uniform win k q m
      → Uniform win k' q m
  Uniform-apart {k} {k'} p q n m prot pos s apart uniform a h =
      keep a h ∙ uniform a h ∙ sym (keep q (first_page q m pos))
    where
      keep : (a : ℕ) → in_pages win q m a ≡ true → protection k' a ≡ protection k a
      keep a h = ground (arith, s.protections a, apart a h)

  -- `compare_memory` returns on two committed ranges that are not empty and share no page, of which
  -- the second has one protection: it unprotects both, compares their bytes as `memcmp` does and
  -- changes no byte.
  pub compare_memory-slice :
      (p q n : ℕ) (w : World Kernel)
      → committed w.kernel p n ≡ true
      → committed w.kernel q n ≡ true
      → 0 < n
      → Uniform win w.kernel q n
      → ((a : ℕ) → in_pages win q n a ≡ true → in_pages win p n a ≡ false)
      → Returns
          (Outcome w p n (λ sign f.
            (sign ≡ compare_bytes (slice w.bytes p n) (slice w.bytes q n)) × (f ≡ w.bytes)))
          (compare_memory win p q n w)
  unfolding compare_memory
  compare_memory-slice p q n w c d pos uniform apart =
      unprotected-Protected win laws P p n (unprotected win q n (memcmp (cpu win) p q n)) w c
        λ u e s.
          Returns.mono
            (unprotected-Protected win laws P q n (memcmp (cpu win) p q n) u (s.commits q n ∙ d)
              λ v e' t.
                rw
                  (memcmp-slice (cpu win) p q n v
                    (Protected-CanRead_other win laws q n p n t (Protected-CanRead win laws p n s))
                    (Protected-CanRead win laws q n t))
                  (returns (
                    (ap (λ f. compare_bytes (slice f p n) (slice f q n)) (e' ∙ e), e' ∙ e),
                    Same-refl win v.kernel,
                  )))
            λ a v (done, t). (
              done,
              Protected-Same win q n
                  (Uniform-apart p q n n win.page_execute_readwrite pos s apart uniform) t,
            )
    where
      P : Sign → Bytes → Type 0
      P sign f = (sign ≡ compare_bytes (slice w.bytes p n) (slice w.bytes q n)) × (f ≡ w.bytes)
