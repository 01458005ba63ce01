-- ===== src/Scoped/Backup.antt =====
-- What scoped_copy and scoped_fill have in common: a backup of a range in a buffer.
use memwrapper.Base.{
  ℕ, ◌+◌, ◌<◌, ◌≡◌, sym, ap, ◌∙◌, List, arith, length, Apart, within, if◌then◌else◌,
}
use memwrapper.Machine.{Bytes, slice, overlay}
use memwrapper.Machine.Overlay.{
  length-slice, slice-overlay, slice-overlay_apart, slice-ext, overlay-slice,
}
use memwrapper.Machine.Run.{CanRead}
use memwrapper.Windows.{Windows, cpu}
use memwrapper.Llmo.Unprotect.Scope.{Same}
use memwrapper.Llmo.Operations.Kept.{IsOpen, IsOpen-Same, CanRead-Same}

-- The bytes when `at` has been saved in `buf` and then holds `ys`.
abbrev pub saved : Bytes → (buf at n : ℕ) → List ℕ → Bytes
saved f buf at n ys = overlay (overlay f buf (slice f at n)) at ys

slice-saved :
    (f : Bytes) (buf at n : ℕ) (ys : List ℕ)
    → length ys ≡ n
    → Apart buf n at n
    → slice (saved f buf at n ys) buf n ≡ slice f at n
slice-saved f buf at n ys e apart =
    slice-overlay_apart (overlay f buf (slice f at n)) at ys buf n (ground arith)
    ∙ ap (λ k. slice (overlay f buf (slice f at n)) buf k) (sym (length-slice f at n))
    ∙ slice-overlay f buf (slice f at n)

-- Copying the buffer back undoes the change, if the buffer was left alone.
pub overlay-saved :
    (f g : Bytes) (buf at n : ℕ) (ys : List ℕ)
    → length ys ≡ n
    → Apart buf n at n
    → ((i : ℕ) → i < n → g (buf + i) ≡ saved f buf at n ys (buf + i))
    → (a : ℕ) → overlay g at (slice g buf n) a ≡ (if within at n a then f a else g a)
overlay-saved f g buf at n ys e apart kept a =
    ap (λ xs. overlay g at xs a)
      (slice-ext g (saved f buf at n ys) buf buf n kept ∙ slice-saved f buf at n ys e apart)
    ∙ overlay-slice g f at n a

module _ (win : Windows) where
  open win use {Kernel}

  -- A range and a buffer for it: both open and readable, and apart.
  pub record IsSite (k : Kernel) (buf at n : ℕ) : Type 0 where
    pub store : IsOpen win k buf n
    pub target : IsOpen win k at n
    pub store_read : CanRead (cpu win) k buf n
    pub target_read : CanRead (cpu win) k at n
    pub apart : Apart buf n at n

  pub IsSite-Same :
      {k k' : Kernel} {buf at n : ℕ} → IsSite k buf at n → Same win k k' → IsSite k' buf at n
  IsSite-Same {buf} {at} {n} i s = record {
    store = IsOpen-Same win buf n i.store s;
    target = IsOpen-Same win at n i.target s;
    store_read = CanRead-Same win buf n i.store_read s;
    target_read = CanRead-Same win at n i.target_read s;
    apart = i.apart;
  }
