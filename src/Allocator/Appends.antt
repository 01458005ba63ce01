-- ===== src/Allocator/Appends.antt =====
-- Runs that write a list of bytes at the cursor and nothing else, one after another.
use memwrapper.Base.{
  ℕ, zero, suc, ◌+◌, ◌≤◌, ◌≡◌, sym, ap, ◌∙◌, Option, some, List, [], ◌∷◌, ◌++◌, arith, length,
  length-append, Apart, true,
}
use mathlib.Core.Path.{ap₂, subst}
use memwrapper.Machine.{M, World, and_then, slice, overlay, load}
use memwrapper.Machine.Overlay.{slice-overlay_apart, overlay-append}
use memwrapper.Machine.Run.{CanRead, CanWrite}
use memwrapper.Windows.{Windows, cpu}
use memwrapper.Allocator.{BasicAllocator, now, db, db_bytes, db_object}
use memwrapper.Allocator.Writes.{IsValid, advance, db_bytes_fits, db-store}

module _ {K : Type 0} where
  abbrev pub written_at : World K → BasicAllocator → List ℕ → World K
  written_at w a bs = record w { bytes = overlay w.bytes (now a) bs }

  -- The run returns with the bytes written at the cursor, which has moved past them.
  abbrev pub Appends :
      List ℕ → BasicAllocator → World K → Option (BasicAllocator × World K) → Type 0
  Appends bs a w r = r ≡ some (advance a (length bs), written_at w a bs)

  -- Two lists written in turn are their concatenation.
  pub Appends-and_then :
      (xs ys : List ℕ) (a : BasicAllocator) (w : World K) {r : Option (BasicAllocator × World K)}
      (f : BasicAllocator → M K BasicAllocator)
      → Appends xs a w r
      → Appends ys
          (advance a (length xs))
          (written_at w a xs)
          (f (advance a (length xs)) (written_at w a xs))
      → Appends (xs ++ ys) a w (and_then r f)
  Appends-and_then xs ys a w f first second =
      ap (λ r. and_then r f) first
      ∙ second
      ∙ ap₂ (λ k g. some (record a { offset = k }, record w { bytes = g }))
          (omega (arith, length-append xs ys))
          (ap (λ p. overlay (overlay w.bytes (now a) xs) p ys) (omega arith)
            ∙ sym (overlay-append w.bytes (now a) xs ys))

module _ (win : Windows) where
  open win use {Kernel}

  -- A cursor in a region that may be written, with room for `n` bytes.
  pub record HasRoom (k : Kernel) (a : BasicAllocator) (n : ℕ) : Type 0 where
    pub valid : IsValid a
    pub room : a.offset + n ≤ a.size
    pub writable : CanWrite (cpu win) k a.code a.size

  pub HasRoom-advance :
      {k : Kernel} (a : BasicAllocator) (m n : ℕ) → HasRoom k a (m + n) → HasRoom k (advance a m) n
  HasRoom-advance a m n h = record {
    valid = record { in_region = omega (arith, h.room); word = h.valid.word };
    room = omega (arith, h.room);
    writable = h.writable;
  }

  pub HasRoom-le :
      {k : Kernel} (a : BasicAllocator) (m n : ℕ) → m ≤ n → HasRoom k a n → HasRoom k a m
  HasRoom-le a m n le h = record {
    valid = h.valid;
    room = omega (arith, h.room);
    writable = h.writable;
  }

  pub db_bytes-Appends :
      (bs : List ℕ) (a : BasicAllocator) (w : World Kernel)
      → HasRoom w.kernel a (length bs)
      → Appends bs a w (db_bytes win bs a w)
  db_bytes-Appends bs a w h = db_bytes_fits win bs a w h.valid h.writable h.room

  db-Appends :
      (b : ℕ) (a : BasicAllocator) (w : World Kernel)
      → HasRoom w.kernel a 1
      → Appends (b ∷ []) a w (db win b a w)
  unfolding overlay
  db-Appends b a w h = db-store win b a w h.valid (omega (arith, h.room)) h.writable

  -- An object in memory apart from the region is copied as it is.
  pub db_object-Appends :
      (object n : ℕ) (a : BasicAllocator) (w : World Kernel)
      → HasRoom w.kernel a n
      → CanRead (cpu win) w.kernel object n
      → Apart object n a.code a.size
      → Appends (slice w.bytes object n) a w (db_object win object n a w)
  unfolding db_object load slice overlay
  db_object-Appends object zero a w h r apart =
      ap (λ k. some (record a { offset = k }, w)) (omega arith)
  db_object-Appends object (suc n) a w h r apart = rw readable (
      Appends-and_then (b ∷ []) (slice w.bytes (object + 1) n) a w (db_object win (object + 1) n)
        (db-Appends b a w (HasRoom-le a 1 (suc n) (omega arith) h))
        (subst (λ bs. Appends bs (advance a 1) v (db_object win (object + 1) n (advance a 1) v))
          (slice-overlay_apart w.bytes (now a) (b ∷ []) (object + 1) n
            (omega (arith, h.room, apart)))
          (db_object-Appends (object + 1) n (advance a 1) v
            (HasRoom-advance a 1 n (HasRoom-le a (1 + n) (suc n) (omega arith) h))
            (λ i lt.
              ap (λ p. win.readable (win.protection w.kernel p)) (omega arith)
              ∙ r (suc i) (omega arith))
            (omega (arith, apart)))))
    where
      b : ℕ
      b = w.bytes object

      v : World Kernel
      v = written_at w a (b ∷ [])

      readable : win.readable (win.protection w.kernel object) ≡ true
      readable =
          ap (λ p. win.readable (win.protection w.kernel p)) (omega arith) ∙ r 0 (omega arith)
