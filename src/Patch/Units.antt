-- ===== src/Patch/Units.antt =====
-- The units of a scoped_patch as sequences of copies, and what the units make of each byte.
use memwrapper.Base.{
  ℕ, ◌+◌, ◌-◌, ◌≡◌, refl, Bool, false, ◌||◌, List, [], ◌∷◌, arith, All, within, if◌then◌else◌,
}
use memwrapper.Machine.{Bytes, World, slice, overlay}
use memwrapper.Machine.Overlay.{length-slice, overlay_at, get_or-slice}
use memwrapper.Windows.{Windows}
use memwrapper.Patch.Jobs.{Job, Spares, written, touched, copy_each, CanCopy}
use memwrapper.Patch.{
  ByteVector, ScopedPatchUnit, install_unit, restore_unit, install_each, restore_each, install,
  remove,
}

abbrev pub install_job : ScopedPatchUnit → Job
install_job u = record { dst = u.address; src = u.replacement.start; size = u.replacement.size }

abbrev pub restore_job : ScopedPatchUnit → Job
restore_job u = record { dst = u.address; src = u.original.start; size = u.original.size }

abbrev pub installs : List ScopedPatchUnit → List Job
installs [] = []
installs (u ∷ us) = install_job u ∷ installs us

abbrev pub restores : List ScopedPatchUnit → List Job
restores [] = []
restores (u ∷ us) = restore_job u ∷ restores us

-- The address lies in the range of a unit.
abbrev pub covered : List ScopedPatchUnit → ℕ → Bool
covered [] a = false
covered (u ∷ us) a = within u.address u.replacement.size a || covered us a

-- What the units make of the byte at an address of `f`: the last one that covers it decides.
abbrev pub patched : Bytes → List ScopedPatchUnit → Bytes
patched f [] a = f a
patched f (u ∷ us) a =
    if covered us a
    then patched f us a
    else (if within u.address u.replacement.size a
        then f (u.replacement.start + (a - u.address))
        else f a)

-- The range of a unit does not meet the vectors of another, or its own.
abbrev pub SparesVectors : ScopedPatchUnit → ScopedPatchUnit → Type 0
SparesVectors u v = Spares (install_job u) (install_job v) × Spares (install_job u) (restore_job v)

module _ (win : Windows) where
  open win use {Kernel}

  -- A unit that can be installed and restored, and holds the bytes of its range.
  pub record IsCaptured (w : World Kernel) (u : ScopedPatchUnit) : Type 0 where
    pub can_install : CanCopy win w.kernel (install_job u)
    pub can_restore : CanCopy win w.kernel (restore_job u)
    pub same_size : u.original.size ≡ u.replacement.size
    pub captured :
        slice w.bytes u.original.start u.original.size ≡ slice w.bytes u.address u.original.size

  install_each-copy_each :
      (us : List ScopedPatchUnit) → install_each win us ≡ copy_each win (installs us)
  unfolding install_each install_unit copy_each
  install_each-copy_each [] = refl
  install_each-copy_each (u ∷ us) = rw (install_each-copy_each us)

  restore_each-copy_each :
      (us : List ScopedPatchUnit) → restore_each win us ≡ copy_each win (restores us)
  unfolding restore_each restore_unit copy_each
  restore_each-copy_each [] = refl
  restore_each-copy_each (u ∷ us) = rw (restore_each-copy_each us)

  pub install-copy_each :
      (us : List ScopedPatchUnit)
      → install win (record { units = us }) ≡ copy_each win (installs us)
  unfolding install copy_each
  install-copy_each [] = refl
  install-copy_each (u ∷ us) = install_each-copy_each (u ∷ us)

  pub remove-copy_each :
      (us : List ScopedPatchUnit) → remove win (record { units = us }) ≡ copy_each win (restores us)
  unfolding remove copy_each
  remove-copy_each [] = refl
  remove-copy_each (u ∷ us) = restore_each-copy_each (u ∷ us)

-- `written` for the installing copies is `patched`.
pub written-patched :
    (g f : Bytes) (us : List ScopedPatchUnit) (a : ℕ)
    → written g f (installs us) a ≡ (if covered us a then patched g us a else f a)
written-patched g f [] a = refl
written-patched g f (u ∷ us) a = ground (
  arith,
  written-patched g (overlay f u.address (slice g r.start r.size)) us a,
  overlay_at f u.address (slice g r.start r.size) a,
  length-slice g r.start r.size,
  get_or-slice g r.start r.size (a - u.address),
)
  where
    r : ByteVector
    r = u.replacement

pub patched_uncovered :
    (f : Bytes) (us : List ScopedPatchUnit) (a : ℕ) → covered us a ≡ false → patched f us a ≡ f a
patched_uncovered f [] a h = refl
patched_uncovered f (u ∷ us) a h = ground (arith, patched_uncovered f us a)

module _ (win : Windows) (w : World win.Kernel) where
  pub touched-restores :
      (us : List ScopedPatchUnit) (a : ℕ)
      → All (IsCaptured win w) us
      → touched (restores us) a ≡ covered us a
  touched-restores [] a c = refl
  touched-restores (u ∷ us) a c = rw (c.0.same_size, touched-restores us a c.1)

  pub can_installs :
      (us : List ScopedPatchUnit)
      → All (IsCaptured win w) us
      → All (CanCopy win w.kernel) (installs us)
  can_installs [] c = tt
  can_installs (u ∷ us) c = (c.0.can_install, can_installs us c.1)

  pub can_restores :
      (us : List ScopedPatchUnit)
      → All (IsCaptured win w) us
      → All (CanCopy win w.kernel) (restores us)
  can_restores [] c = tt
  can_restores (u ∷ us) c = (c.0.can_restore, can_restores us c.1)
