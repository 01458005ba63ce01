-- ===== src/Patch/Adds.antt =====
-- `add` puts a copy of a unit behind the units of a patch.
use memwrapper.Base.{
  ℕ, ◌≡◌, refl, sym, ap, ◌∙◌, false, some, arith, Apart, within, List, [], ◌∷◌, ◌++◌,
}
use memwrapper.Machine.{Bytes, World, slice, overlay}
use memwrapper.Machine.Overlay.{overlay_at, length-slice, slice-overlay, slice-overlay_apart}
use memwrapper.Machine.Returns.{Returns, returns}
use memwrapper.Machine.Run.{CanRead, CanWrite, memcpy-overlay}
use memwrapper.Windows.{Windows, cpu}
use memwrapper.Patch.{ScopedPatchUnit, ScopedPatch, add, copy_unit, copy_vector}
use memwrapper.Patch.Units.{IsCaptured}

module _ (win : Windows) where
  open win use {Kernel}

  -- The new storage of the two vectors may be accessed, and is apart from the unit's original, from
  -- its range and in itself.
  pub record CanAdd (k : Kernel) (u : ScopedPatchUnit) (storage storage' : ℕ) : Type 0 where
    pub first_read : CanRead (cpu win) k storage u.replacement.size
    pub first_write : CanWrite (cpu win) k storage u.replacement.size
    pub second_read : CanRead (cpu win) k storage' u.original.size
    pub second_write : CanWrite (cpu win) k storage' u.original.size
    pub original_apart : Apart storage u.replacement.size u.original.start u.original.size
    pub first_apart : Apart storage u.replacement.size u.address u.original.size
    pub second_apart : Apart storage' u.original.size u.address u.original.size
    pub storage_apart : Apart storage u.replacement.size storage' u.original.size

module _ (win : Windows) (u : ScopedPatchUnit) (storage storage' : ℕ) (w : World win.Kernel)
    (captured : IsCaptured win w u) (can : CanAdd win w.kernel u storage storage') where
  open win use {Kernel}

  abbrev pub copied : Bytes
  copied = overlay w.bytes storage (slice w.bytes u.replacement.start u.replacement.size)

  abbrev original : List ℕ
  original = slice copied u.original.start u.original.size

  abbrev pub final : Bytes
  final = overlay copied storage' original

  abbrev pub unit_copy : ScopedPatchUnit
  unit_copy = record {
    address = u.address;
    replacement = record { start = storage; size = u.replacement.size };
    original = record { start = storage'; size = u.original.size };
  }

  final_outside :
      (a : ℕ)
      → within storage u.replacement.size a ≡ false
      → within storage' u.original.size a ≡ false
      → final a ≡ w.bytes a
  final_outside a out out' = ground (
    arith,
    overlay_at copied storage' original a,
    overlay_at w.bytes storage (slice w.bytes u.replacement.start u.replacement.size) a,
    length-slice copied u.original.start u.original.size,
    length-slice w.bytes u.replacement.start u.replacement.size,
  )

  -- A range apart from the first storage is as it was when the replacement has been copied.
  copied_stays :
      (p n : ℕ) → Apart storage u.replacement.size p n → slice copied p n ≡ slice w.bytes p n
  copied_stays p n apart =
      slice-overlay_apart w.bytes storage (slice w.bytes u.replacement.start u.replacement.size) p n
        (omega (arith, apart, length-slice w.bytes u.replacement.start u.replacement.size))

  pub replacement_copied :
      slice final storage u.replacement.size ≡ slice w.bytes u.replacement.start u.replacement.size
  replacement_copied =
      slice-overlay_apart copied storage' original storage u.replacement.size
        (omega (arith, can.storage_apart, length-slice copied u.original.start u.original.size))
      ∙ ap (slice copied storage)
          (sym (length-slice w.bytes u.replacement.start u.replacement.size))
      ∙ slice-overlay w.bytes storage (slice w.bytes u.replacement.start u.replacement.size)

  original_copied : slice final storage' u.original.size ≡ original
  original_copied =
      ap (slice final storage') (sym (length-slice copied u.original.start u.original.size))
      ∙ slice-overlay copied storage' original

  -- A range apart from both storages is as it was.
  stays :
      (p n : ℕ)
      → Apart storage u.replacement.size p n
      → Apart storage' u.original.size p n
      → slice final p n ≡ slice w.bytes p n
  stays p n apart apart' =
      slice-overlay_apart copied storage' original p n
        (omega (arith, apart', length-slice copied u.original.start u.original.size))
      ∙ copied_stays p n apart

  pub copy_unit-eq :
      copy_unit win u storage storage' w ≡ some (unit_copy, record w { bytes = final })
  unfolding copy_unit copy_vector
  copy_unit-eq =
      rw
        (
          memcpy-overlay (cpu win) storage u.replacement.start u.replacement.size w
              captured.can_install.source can.first_write,
          memcpy-overlay (cpu win) storage' u.original.start u.original.size
              (record w { bytes = copied }) captured.can_restore.source can.second_write,
        )
        refl

  pub unit_copy-IsCaptured : IsCaptured win (record w { bytes = final }) unit_copy
  unit_copy-IsCaptured = record {
    can_install = record { target = captured.can_install.target; source = can.first_read };
    can_restore = record { target = captured.can_restore.target; source = can.second_read };
    same_size = captured.same_size;
    captured =
        original_copied
        ∙ copied_stays u.original.start u.original.size can.original_apart
        ∙ captured.captured
        ∙ sym (stays u.address u.original.size can.first_apart can.second_apart);
  }

  -- Adding a unit that can be undone returns, where new storage may be accessed and is apart from
  -- the unit's original and its range. The patch has one unit more, the last, which is a copy in
  -- the new storage: it holds the same replacement and can be undone as well. No byte outside the
  -- new storage has changed.
  pub add-IsCaptured :
      (p : ScopedPatch)
      → Returns
          (λ p' v.
            (p'.units ≡ p.units ++ (unit_copy ∷ []))
            × IsCaptured win v unit_copy
            × (slice v.bytes storage u.replacement.size
                ≡ slice w.bytes u.replacement.start u.replacement.size)
            × ((a : ℕ)
                → within storage u.replacement.size a ≡ false
                → within storage' u.original.size a ≡ false
                → v.bytes a ≡ w.bytes a)
            × (v.kernel ≡ w.kernel))
          (add win u storage storage' p w)
  unfolding add
  add-IsCaptured p =
      rw copy_unit-eq
        (returns (refl, unit_copy-IsCaptured, replacement_copied, final_outside, refl))
