-- ===== src/Machine/Run.antt =====
-- The C library's memory functions on memory that may be accessed: they return, and what the
-- bytes are then.
use memwrapper.Base.{
  ℕ, zero, suc, ◌+◌, ◌<◌, ◌≡◌, refl, ap, ◌∙◌, true, false, none, some, List, [], ◌∷◌, arith, byte,
  length, replicate, length-replicate,
}
use memwrapper.Machine.{
  World, Access, load, store, slice, overlay, read_bytes, write_bytes, memcpy, memset, memcmp,
  compare_bytes,
}
use memwrapper.Machine.Overlay.{length-slice}

module _ {K : Type 0} (cpu : Access K) where
  -- Every byte of a range may be read, or written.
  abbrev pub CanRead : K → ℕ → ℕ → Type 0
  CanRead k p n = (i : ℕ) → i < n → cpu.can_read k (p + i) ≡ true

  abbrev pub CanWrite : K → ℕ → ℕ → Type 0
  CanWrite k p n = (i : ℕ) → i < n → cpu.can_write k (p + i) ≡ true

  pub CanRead-drop : (k : K) (p n m r : ℕ) → n ≡ m + r → CanRead k p n → CanRead k (p + m) r
  CanRead-drop k p n m r e h i lt =
      ap (cpu.can_read k) {y = p + (m + i)} (omega arith) ∙ h (m + i) (omega arith)

  pub read_bytes-slice :
      (p n : ℕ) (w : World K)
      → CanRead w.kernel p n
      → read_bytes cpu p n w ≡ some (slice w.bytes p n, w)
  unfolding read_bytes load slice
  read_bytes-slice p zero w h = refl
  read_bytes-slice p (suc n) w h = rw (
    first,
    read_bytes-slice (p + 1) n w
        (λ i lt. ap (cpu.can_read w.kernel) (omega arith) ∙ h (suc i) (omega arith)),
  )
    where
      first : cpu.can_read w.kernel p ≡ true
      first = ap (cpu.can_read w.kernel) (omega arith) ∙ h 0 (omega arith)

  pub write_bytes-overlay :
      (p : ℕ) (bs : List ℕ) (w : World K)
      → CanWrite w.kernel p (length bs)
      → write_bytes cpu p bs w ≡ some (tt, record w { bytes = overlay w.bytes p bs })
  unfolding write_bytes store overlay
  write_bytes-overlay p [] w h = refl
  write_bytes-overlay p (b ∷ bs) w h = rw first (
      write_bytes-overlay (p + 1) bs _
        (λ i lt. ap (cpu.can_write w.kernel) (omega arith) ∙ h (suc i) (omega arith)))
    where
      first : cpu.can_write w.kernel p ≡ true
      first = ap (cpu.can_write w.kernel) (omega arith) ∙ h 0 (omega arith)

  pub memcpy-overlay :
      (dst src n : ℕ) (w : World K)
      → CanRead w.kernel src n
      → CanWrite w.kernel dst n
      → memcpy cpu dst src n w
        ≡ some (tt, record w { bytes = overlay w.bytes dst (slice w.bytes src n) })
  unfolding memcpy
  memcpy-overlay dst src n w r h =
      rw (read_bytes-slice src n w r)
        (write_bytes-overlay dst (slice w.bytes src n) w (rw (length-slice w.bytes src n) h))

  pub memset-overlay :
      (at value n : ℕ) (w : World K)
      → CanWrite w.kernel at n
      → memset cpu at value n w
        ≡ some (tt, record w { bytes = overlay w.bytes at (replicate n (byte value)) })
  unfolding memset
  memset-overlay at value n w h =
      write_bytes-overlay at (replicate n (byte value)) w (rw (length-replicate n (byte value)) h)

  pub memcmp-slice :
      (p q n : ℕ) (w : World K)
      → CanRead w.kernel p n
      → CanRead w.kernel q n
      → memcmp cpu p q n w ≡ some (compare_bytes (slice w.bytes p n) (slice w.bytes q n), w)
  unfolding memcmp
  memcmp-slice p q n w hp hq = rw (read_bytes-slice p n w hp, read_bytes-slice q n w hq)

  -- An access violation at the first byte of the source.
  pub memcpy-fault :
      (dst src n : ℕ) (w : World K)
      → 0 < n
      → cpu.can_read w.kernel src ≡ false
      → memcpy cpu dst src n w ≡ none
  unfolding memcpy read_bytes load
  memcpy-fault dst src zero w h bad = elim h [ ]
  memcpy-fault dst src (suc n) w h bad = rw bad
