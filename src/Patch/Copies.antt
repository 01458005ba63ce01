-- ===== src/Patch/Copies.antt =====
-- The constructor of scoped_patch copies the units.
use memwrapper.Base.{
  ℕ, ◌≡◌, refl, sym, ◌∙◌, Bool, false, ◌||◌, some, List, [], ◌∷◌, arith, All, Apart, within,
}
use memwrapper.Machine.{Bytes, World, slice, overlay}
use memwrapper.Machine.Overlay.{overlay_at, length-slice, slice-overlay_apart}
use memwrapper.Windows.{Windows}
use memwrapper.Patch.{ScopedPatchUnit, CopySource, copy_units, construct_patch}
use memwrapper.Patch.Adds.{CanAdd, copy_unit-eq, unit_copy-IsCaptured, replacement_copied}
use memwrapper.Patch.Units.{IsCaptured}

-- What the constructor makes of a unit.
abbrev pub copy_of : CopySource → ScopedPatchUnit
copy_of s = record {
  address = s.unit.address;
  replacement = record { start = s.storage; size = s.unit.replacement.size };
  original = record { start = s.storage'; size = s.unit.original.size };
}

abbrev pub copies : List CopySource → List ScopedPatchUnit
copies [] = []
copies (s ∷ ss) = copy_of s ∷ copies ss

abbrev with_replacement : Bytes → CopySource → Bytes
with_replacement f s =
    overlay f s.storage (slice f s.unit.replacement.start s.unit.replacement.size)

-- The bytes when a unit has been copied, and when all have.
abbrev with_copy : Bytes → CopySource → Bytes
with_copy f s =
    overlay (with_replacement f s) s.storage'
      (slice (with_replacement f s) s.unit.original.start s.unit.original.size)

abbrev pub with_copies : Bytes → List CopySource → Bytes
with_copies f [] = f
with_copies f (s ∷ ss) = with_copies (with_copy f s) ss

-- The new storage does not meet a range.
abbrev Avoids : (p n : ℕ) → CopySource → Type 0
Avoids p n s =
    Apart s.storage s.unit.replacement.size p n × Apart s.storage' s.unit.original.size p n

-- The storage of the one meets neither the vectors and the range of the other, nor its storage.
abbrev pub Clears : CopySource → CopySource → Type 0
Clears s t =
    Avoids t.unit.address t.unit.original.size s
    × Avoids t.unit.original.start t.unit.original.size s
    × Avoids t.unit.replacement.start t.unit.replacement.size s
    × Avoids t.storage t.unit.replacement.size s
    × Avoids t.storage' t.unit.original.size s

abbrev pub Fresh : List CopySource → Type 0
Fresh [] = Unit
Fresh (s ∷ ss) = All (Clears s) ss × All (λ t. Clears t s) ss × Fresh ss

slice-with_copy :
    (f : Bytes) (s : CopySource) (p n : ℕ) → Avoids p n s → slice (with_copy f s) p n ≡ slice f p n
slice-with_copy f s p n (apart, apart') =
    slice-overlay_apart (with_replacement f s) s.storage' _ p n (
      omega (
        arith,
        apart',
        length-slice (with_replacement f s) s.unit.original.start s.unit.original.size,
      ))
    ∙ slice-overlay_apart f s.storage _ p n
        (omega (arith, apart, length-slice f s.unit.replacement.start s.unit.replacement.size))

slice-with_copies :
    (f : Bytes) (ss : List CopySource) (p n : ℕ)
    → All (Avoids p n) ss
    → slice (with_copies f ss) p n ≡ slice f p n
slice-with_copies f [] p n h = refl
slice-with_copies f (s ∷ ss) p n h =
    slice-with_copies (with_copy f s) ss p n h.1 ∙ slice-with_copy f s p n h.0

-- The address lies in new storage.
abbrev pub stored : List CopySource → ℕ → Bool
stored [] a = false
stored (s ∷ ss) a =
    within s.storage s.unit.replacement.size a
    || within s.storage' s.unit.original.size a
    || stored ss a

pub with_copies-outside :
    (f : Bytes) (ss : List CopySource) (a : ℕ) → stored ss a ≡ false → with_copies f ss a ≡ f a
with_copies-outside f [] a out = refl
with_copies-outside f (s ∷ ss) a out =
    with_copies-outside (with_copy f s) ss a (ground (arith, out))
    ∙ ground (
      arith,
      out,
      overlay_at (with_replacement f s) s.storage'
          (slice (with_replacement f s) s.unit.original.start s.unit.original.size) a,
      overlay_at f s.storage (slice f s.unit.replacement.start s.unit.replacement.size) a,
      length-slice (with_replacement f s) s.unit.original.start s.unit.original.size,
      length-slice f s.unit.replacement.start s.unit.replacement.size,
    )

module _ (win : Windows) where
  open win use {Kernel}

  -- Units that can be undone, and storage for their copies.
  abbrev pub Sources : World Kernel → List CopySource → Type 0
  Sources w ss =
      All (λ (s : CopySource). IsCaptured win w s.unit) ss
      × All (λ (s : CopySource). CanAdd win w.kernel s.unit s.storage s.storage') ss
      × Fresh ss

  abbrev after : World Kernel → CopySource → World Kernel
  after w s = record w { bytes = with_copy w.bytes s }

  IsCaptured-after :
      (w : World Kernel) (s t : CopySource)
      → Clears s t
      → IsCaptured win w t.unit
      → IsCaptured win (after w s) t.unit
  IsCaptured-after w s t (range, original, _, _, _) c = record {
    can_install = c.can_install;
    can_restore = c.can_restore;
    same_size = c.same_size;
    captured =
        slice-with_copy w.bytes s t.unit.original.start t.unit.original.size original
        ∙ c.captured
        ∙ sym (slice-with_copy w.bytes s t.unit.address t.unit.original.size range);
  }

  IsCaptured-after_rest :
      (w : World Kernel) (s : CopySource) (ss : List CopySource)
      → All (Clears s) ss
      → All (λ (t : CopySource). IsCaptured win w t.unit) ss
      → All (λ (t : CopySource). IsCaptured win (after w s) t.unit) ss
  IsCaptured-after_rest w s [] cl c = tt
  IsCaptured-after_rest w s (t ∷ ss) cl c =
      (IsCaptured-after w s t cl.0 c.0, IsCaptured-after_rest w s ss cl.1 c.1)

  Sources-tail :
      (w : World Kernel) (s : CopySource) (ss : List CopySource)
      → Sources w (s ∷ ss)
      → Sources (after w s) ss
  Sources-tail w s ss (c, can, fresh) = (IsCaptured-after_rest w s ss fresh.0 c.1, can.1, fresh.2)

  copy_units-copies :
      (ss : List CopySource) (w : World Kernel)
      → Sources w ss
      → copy_units win ss w ≡ some (copies ss, record w { bytes = with_copies w.bytes ss })
  unfolding copy_units
  copy_units-copies [] w h = refl
  copy_units-copies (s ∷ ss) w (c, can, fresh) =
      rw
        (
          copy_unit-eq win s.unit s.storage s.storage' w c.0 can.0,
          copy_units-copies ss (after w s) (Sources-tail w s ss (c, can, fresh)),
        )
        refl

  avoided :
      (s : CopySource) (ss : List CopySource)
      → All (λ t. Clears t s) ss
      → All (Avoids s.unit.address s.unit.original.size) ss
        × All (Avoids s.storage s.unit.replacement.size) ss
        × All (Avoids s.storage' s.unit.original.size) ss
  avoided s [] cl = (tt, tt, tt)
  avoided s (t ∷ ss) cl =
      let (range, first, second) = avoided s ss cl.1 in
      ((cl.0.0, range), (cl.0.3, first), (cl.0.4, second))

  -- The copies can be undone.
  copies-IsCaptured :
      (ss : List CopySource) (w : World Kernel)
      → Sources w ss
      → All (IsCaptured win (record w { bytes = with_copies w.bytes ss })) (copies ss)
  copies-IsCaptured [] w h = tt
  copies-IsCaptured (s ∷ ss) w (c, can, fresh) =
      let (range, _, second) = avoided s ss fresh.1 in
      let one = unit_copy-IsCaptured win s.unit s.storage s.storage' w c.0 can.0 in
      (
        record {
          can_install = one.can_install;
          can_restore = one.can_restore;
          same_size = one.same_size;
          captured =
              slice-with_copies (with_copy w.bytes s) ss s.storage' s.unit.original.size second
              ∙ one.captured
              ∙ sym (
                  slice-with_copies (with_copy w.bytes s) ss s.unit.address s.unit.original.size
                    range);
        },
        copies-IsCaptured ss (after w s) (Sources-tail w s ss (c, can, fresh)),
      )

  -- They hold the replacements.
  abbrev pub Holds : (f g : Bytes) → CopySource → Type 0
  Holds f g s =
      slice g s.storage s.unit.replacement.size
      ≡ slice f s.unit.replacement.start s.unit.replacement.size

  Holds-back :
      (w : World Kernel) (g : Bytes) (s : CopySource) (ss : List CopySource)
      → All (Clears s) ss
      → All (Holds (with_copy w.bytes s) g) ss
      → All (Holds w.bytes g) ss
  Holds-back w g s [] cl h = tt
  Holds-back w g s (t ∷ ss) cl h = (
    h.0 ∙ slice-with_copy w.bytes s t.unit.replacement.start t.unit.replacement.size cl.0.2,
    Holds-back w g s ss cl.1 h.1,
  )

  copies-Holds :
      (ss : List CopySource) (w : World Kernel)
      → Sources w ss
      → All (Holds w.bytes (with_copies w.bytes ss)) ss
  copies-Holds [] w h = tt
  copies-Holds (s ∷ ss) w (c, can, fresh) =
      let (_, first, _) = avoided s ss fresh.1 in
      (
        slice-with_copies (with_copy w.bytes s) ss s.storage s.unit.replacement.size first
            ∙ replacement_copied win s.unit s.storage s.storage' w c.0 can.0,
        Holds-back w (with_copies (with_copy w.bytes s) ss) s ss fresh.0
            (copies-Holds ss (after w s) (Sources-tail w s ss (c, can, fresh))),
      )

  -- The constructor returns. Its patch has the copies, which can be undone and hold the
  -- replacements, and no byte outside the new storage has changed.
  pub construct_patch-copies :
      (ss : List CopySource) (w : World Kernel)
      → Sources w ss
      → (construct_patch win ss w
          ≡ some (record { units = copies ss }, record w { bytes = with_copies w.bytes ss }))
        × All (IsCaptured win (record w { bytes = with_copies w.bytes ss })) (copies ss)
        × All (Holds w.bytes (with_copies w.bytes ss)) ss
        × ((a : ℕ) → stored ss a ≡ false → with_copies w.bytes ss a ≡ w.bytes a)
  unfolding construct_patch
  construct_patch-copies ss w h = (
    rw (copy_units-copies ss w h) refl,
    copies-IsCaptured ss w h,
    copies-Holds ss w h,
    with_copies-outside w.bytes ss,
  )
