-- ===== src/Patch/Undo.antt =====
-- A scoped_patch installs its units in order, and removing it brings back every byte.
use memwrapper.Base.{ℕ, ◌≡◌, sym, ap, ◌∙◌, fun_ext, List, [], ◌∷◌, arith, All, if◌then◌else◌}
use memwrapper.Machine.{Bytes, World, M, slice}
use memwrapper.Machine.Returns
use memwrapper.Machine.Returns.{Returns}
use memwrapper.Windows.{Windows, WindowsLaws}
use memwrapper.Llmo.Unprotect.Scope.{Same, Same-trans}
use memwrapper.Llmo.Operations.Kept.{Kept}
use memwrapper.Patch.Jobs.{
  Spares, Independent, written, written_back, slice-written, CanCopy-Same, copy_each-written,
}
use memwrapper.Patch.Units.{
  install_job, restore_job, installs, restores, covered, patched, SparesVectors, IsCaptured,
  install-copy_each, remove-copy_each, written-patched, patched_uncovered, touched-restores,
  can_installs, can_restores,
}
use memwrapper.Patch.{ScopedPatchUnit, destroy, patched_block}

-- The storage of a unit's original holds in `f` what it holds in `g`.
abbrev pub LeavesOriginal : Bytes → Bytes → ScopedPatchUnit → Type 0
LeavesOriginal f g v =
    slice f v.original.start v.original.size ≡ slice g v.original.start v.original.size

-- No unit's range meets a vector of a unit.
abbrev pub Separate : (us vs : List ScopedPatchUnit) → Type 0
Separate [] vs = Unit
Separate (u ∷ us) vs = All (SparesVectors u) vs × Separate us vs

pub Separate-tail :
    (us : List ScopedPatchUnit) (v : ScopedPatchUnit) (vs : List ScopedPatchUnit)
    → Separate us (v ∷ vs)
    → Separate us vs
Separate-tail [] v vs s = tt
Separate-tail (u ∷ us) v vs s = (s.0.1, Separate-tail us v vs s.1)

Spares-installs :
    (u : ScopedPatchUnit) (vs : List ScopedPatchUnit)
    → All (SparesVectors u) vs
    → All (Spares (install_job u)) (installs vs)
Spares-installs u [] s = tt
Spares-installs u (v ∷ vs) s = (s.0.0, Spares-installs u vs s.1)

Spares-restores :
    (u : ScopedPatchUnit) (vs : List ScopedPatchUnit)
    → u.original.size ≡ u.replacement.size
    → All (SparesVectors u) vs
    → All (Spares (restore_job u)) (restores vs)
Spares-restores u [] e s = tt
Spares-restores u (v ∷ vs) e s = (rw e s.0.1, Spares-restores u vs e s.1)

pub installs-Independent : (us : List ScopedPatchUnit) → Separate us us → Independent (installs us)
installs-Independent [] s = tt
installs-Independent (u ∷ us) s =
    (Spares-installs u us s.0.1, installs-Independent us (Separate-tail us u us s.1))

-- The units spare the original of the first one of `vs`.
pub spared_original :
    (us : List ScopedPatchUnit) (v : ScopedPatchUnit) (vs : List ScopedPatchUnit)
    → Separate us (v ∷ vs)
    → All (λ j. Spares j (restore_job v)) (installs us)
spared_original [] v vs s = tt
spared_original (u ∷ us) v vs s = (s.0.0.1, spared_original us v vs s.1)

pub written-eq-patched :
    (f : Bytes) (us : List ScopedPatchUnit) → written f f (installs us) ≡ patched f us
written-eq-patched f us =
    fun_ext λ a. ground (arith, written-patched f f us a, patched_uncovered f us a)

module _ (win : Windows) (w : World win.Kernel) where
  pub restores-Independent :
      (us : List ScopedPatchUnit)
      → All (IsCaptured win w) us
      → Separate us us
      → Independent (restores us)
  restores-Independent [] c s = tt
  restores-Independent (u ∷ us) c s = (
    Spares-restores u us c.0.same_size s.0.1,
    restores-Independent us c.1 (Separate-tail us u us s.1),
  )

  -- In memory that holds the originals of `vs` as `us` left them, the originals are the bytes of
  -- the ranges before.
  pub originals_kept :
      (f : Bytes) (us vs : List ScopedPatchUnit)
      → All (IsCaptured win w) vs
      → Separate us vs
      → All (LeavesOriginal f (patched w.bytes us)) vs
      → All (λ j. slice f j.src j.size ≡ slice w.bytes j.dst j.size) (restores vs)
  originals_kept f us [] c s k = tt
  originals_kept f us (v ∷ vs) c s k = (
    k.0
        ∙ ap (λ g. slice g v.original.start v.original.size) (sym (written-eq-patched w.bytes us))
        ∙ slice-written w.bytes w.bytes (installs us) v.original.start v.original.size
            (spared_original us v vs s)
        ∙ c.0.captured,
    originals_kept f us vs c.1 (Separate-tail us v vs s) k.1,
  )

module _ (win : Windows) (laws : WindowsLaws win) where
  open win use {Kernel}

  -- Where each unit of a patch can be installed and restored, its original holds the bytes of its
  -- range and is as long as its replacement, and no range meets a vector of a unit: a block that
  -- has made the patch and installs the patch runs its body where each address holds the byte of the last unit that
  -- covers it, or else its own, with every protection as before. If the body returns with the same
  -- kernel and leaves the originals' storage alone, the block returns, each covered address holds
  -- its first byte again, and nothing else has changed since the body. Ranges may overlap.
  pub patched_block-undo :
      (us : List ScopedPatchUnit) (body : M Kernel (Unit {0})) (g : Bytes) (w : World Kernel)
      → All (IsCaptured win w) us
      → Separate us us
      → All (LeavesOriginal g (patched w.bytes us)) us
      → ((u : World Kernel)
          → u.bytes ≡ patched w.bytes us
          → Same win w.kernel u.kernel
          → Returns (Kept win u (λ _ f. f ≡ g)) (body u))
      → Returns
          (Kept win w (λ _ f. (a : ℕ) → f a ≡ (if covered us a then w.bytes a else g a)))
          (patched_block win (record { units = us }) body w)
  unfolding patched_block destroy
  patched_block-undo us body g w c s left run =
      rw (install-copy_each win us, remove-copy_each win us)
        (Returns.bind
          (copy_each-written win laws (installs us) w (can_installs win w us c)
            (installs-Independent us s))
          λ _ u (e, same).
            Returns.bind (run u (e ∙ written-eq-patched w.bytes us) same) λ _ v (same_g, same').
              let kept = Same-trans win same same' in
              Returns.mono
                (copy_each-written win laws (restores us) v
                  (CanCopy-Same win (restores us) (can_restores win w us c) kept)
                  (restores-Independent win w us c s))
                λ _ x (f, t). (
                  λ a.
                      ap (λ h. h a) (f ∙ ap (λ h. written h h (restores us)) same_g)
                      ∙ written_back g g w.bytes (restores us) a
                          (originals_kept win w g us us c s left)
                      ∙ ground (arith, touched-restores win w us a c),
                  Same-trans win kept t,
                ))
