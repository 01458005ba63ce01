-- ===== src/Patch/Captures.antt =====
-- The constructor of scoped_patch_unit that reads the original data makes a unit that can be
-- undone.
use memwrapper.Base.{
  ℕ, ◌≡◌, refl, sym, ap, ◌∙◌, false, arith, Apart, length-replicate, replicate, within,
}
use memwrapper.Machine.{Bytes, World, slice, overlay}
use memwrapper.Machine.Overlay.{overlay_at, length-slice, slice-overlay, slice-overlay_apart}
use memwrapper.Machine.Returns
use memwrapper.Machine.Returns.{Returns, returns}
use memwrapper.Machine.Run.{CanRead, CanWrite, memcpy-overlay, memset-overlay}
use memwrapper.Windows.{Windows, WindowsLaws, cpu}
use memwrapper.Llmo.Unprotect.Scope.{Same}
use memwrapper.Llmo.Operations.Kept.{IsOpen, IsOpen-Same, CanRead-Same, copy_memory-Kept}
use memwrapper.Patch.{ByteVector, ScopedPatchUnit, construct_read, copy_vector, zero_vector}
use memwrapper.Patch.Units.{IsCaptured}

module _ (win : Windows) where
  open win use {Kernel}

  -- The patched range, the replacement's elements and the new storage of the two vectors may be
  -- accessed, and the storage is apart from what is copied there and from the range.
  pub record CanConstruct (k : Kernel) (address : ℕ) (r : ByteVector) (storage storage' : ℕ)
      : Type 0 where
    pub target : IsOpen win k address r.size
    pub target_read : CanRead (cpu win) k address r.size
    pub source : CanRead (cpu win) k r.start r.size
    pub first_read : CanRead (cpu win) k storage r.size
    pub first_write : CanWrite (cpu win) k storage r.size
    pub second : IsOpen win k storage' r.size
    pub second_read : CanRead (cpu win) k storage' r.size
    pub second_write : CanWrite (cpu win) k storage' r.size
    pub first_apart : Apart storage r.size address r.size
    pub second_apart : Apart storage' r.size address r.size
    pub storage_apart : Apart storage r.size storage' r.size

module _ (win : Windows) (laws : WindowsLaws win) (address : ℕ) (r : ByteVector)
    (storage storage' : ℕ) (w : World win.Kernel)
    (can : CanConstruct win w.kernel address r storage storage') where
  open win use {Kernel}

  -- The bytes when the replacement has been copied, and when the original is zeros.
  abbrev copied : Bytes
  copied = overlay w.bytes storage (slice w.bytes r.start r.size)

  abbrev cleared : Bytes
  cleared = overlay copied storage' (replicate r.size 0)

  abbrev final : Bytes
  final = overlay cleared storage' (slice cleared address r.size)

  abbrev pub captured_unit : ScopedPatchUnit
  captured_unit = record {
    address = address;
    replacement = record { start = storage; size = r.size };
    original = record { start = storage'; size = r.size };
  }

  final_outside :
      (a : ℕ)
      → within storage r.size a ≡ false
      → within storage' r.size a ≡ false
      → final a ≡ w.bytes a
  final_outside a out out' = ground (
    arith,
    overlay_at cleared storage' (slice cleared address r.size) a,
    overlay_at copied storage' (replicate r.size 0) a,
    overlay_at w.bytes storage (slice w.bytes r.start r.size) a,
    length-slice cleared address r.size,
    length-slice w.bytes r.start r.size,
    length-replicate {A = ℕ} r.size 0,
  )

  original_read : slice final storage' r.size ≡ slice cleared address r.size
  original_read =
      ap (slice final storage') (sym (length-slice cleared address r.size))
      ∙ slice-overlay cleared storage' (slice cleared address r.size)

  target_stays : slice final address r.size ≡ slice cleared address r.size
  target_stays =
      slice-overlay_apart cleared storage' (slice cleared address r.size) address r.size
        (omega (arith, can.second_apart, length-slice cleared address r.size))

  replacement_stays : slice final storage r.size ≡ slice w.bytes r.start r.size
  replacement_stays =
      slice-overlay_apart cleared storage' (slice cleared address r.size) storage r.size
        (omega (arith, can.storage_apart, length-slice cleared address r.size))
      ∙ slice-overlay_apart copied storage' (replicate r.size 0) storage r.size
          (omega (arith, can.storage_apart, length-replicate {A = ℕ} r.size 0))
      ∙ ap (slice copied storage) (sym (length-slice w.bytes r.start r.size))
      ∙ slice-overlay w.bytes storage (slice w.bytes r.start r.size)

  -- Where the storage of the new vectors is apart from what is copied there, constructing a unit
  -- from an address and a replacement returns. The unit holds the replacement and the bytes of its
  -- range, can be installed and restored, and no byte outside the new storage has changed.
  pub construct_read-IsCaptured :
      Returns
        (λ u v.
          (u ≡ captured_unit)
          × IsCaptured win v u
          × (slice v.bytes storage r.size ≡ slice w.bytes r.start r.size)
          × ((a : ℕ)
              → within storage r.size a ≡ false
              → within storage' r.size a ≡ false
              → v.bytes a ≡ w.bytes a)
          × Same win w.kernel v.kernel)
        (construct_read win address r storage storage' w)
  unfolding construct_read copy_vector zero_vector
  construct_read-IsCaptured =
      rw
        (
          memcpy-overlay (cpu win) storage r.start r.size w can.source can.first_write,
          memset-overlay (cpu win) storage' 0 r.size (record w { bytes = copied }) can.second_write,
        )
        (Returns.bind
          (copy_memory-Kept win laws storage' address r.size (record w { bytes = cleared })
            can.second can.target_read)
          λ _ v (e, s). returns (
            refl,
            record {
              can_install = record {
                target = IsOpen-Same win address r.size can.target s;
                source = CanRead-Same win storage r.size can.first_read s;
              };
              can_restore = record {
                target = IsOpen-Same win address r.size can.target s;
                source = CanRead-Same win storage' r.size can.second_read s;
              };
              same_size = refl;
              captured =
                  ap (λ f. slice f storage' r.size) e
                  ∙ original_read
                  ∙ sym target_stays
                  ∙ ap (λ f. slice f address r.size) (sym e);
            },
            ap (λ f. slice f storage r.size) e ∙ replacement_stays,
            λ a out out'. ap (λ f. f a) e ∙ final_outside a out out',
            s,
          ))
