-- ===== src/Patch/Toggles.antt =====
-- A scoped_patch that is toggled any number of times.
use memwrapper.Base.{
  ◌≡◌, refl, sym, ap, ◌∙◌, fun_ext, Bool, true, false, List, [], ◌∷◌, arith, All, if◌then◌else◌,
}
use mathlib.Core.Path.{subst}
use memwrapper.Machine.{Bytes, World, M, pure, ◌>>◌, slice}
use memwrapper.Machine.Returns
use memwrapper.Machine.Returns.{Returns, returns}
use memwrapper.Windows.{Windows, WindowsLaws}
use memwrapper.Llmo.Unprotect.Scope.{Same, Same-refl, Same-trans}
use memwrapper.Llmo.Operations.Kept.{Kept}
use memwrapper.Patch.{ScopedPatch, ScopedPatchUnit, toggle}
use memwrapper.Patch.Jobs.{
  Agree, Agree-refl, Spares, CanCopy-Same, copy_each-Agree, copy_each-written, written,
  written_back, slice-written,
}
use memwrapper.Patch.Undo.{
  Separate, Separate-tail, LeavesOriginal, installs-Independent, written-eq-patched,
  restores-Independent, originals_kept,
}
use memwrapper.Patch.Units.{
  install_job, installs, restores, patched, IsCaptured, install-copy_each, remove-copy_each,
  written-patched, patched_uncovered, touched-restores, can_installs, can_restores,
}

module _ (win : Windows) where
  open win use {Kernel}

  abbrev pub toggles : List Bool → ScopedPatch → M Kernel (Unit {0})
  toggles [] p = pure tt
  toggles (status ∷ statuses) p = toggle win status p >> toggles statuses p

-- The status that was asked for last, if any.
abbrev pub last_status : Bool → List Bool → Bool
last_status on [] = on
last_status on (status ∷ statuses) = last_status status statuses

-- What stands in memory while the patch is on or off.
abbrev pub shown : Bytes → List ScopedPatchUnit → (on : Bool) → Bytes
shown f us on = if on then patched f us else f

-- The units spare the replacement of the first one of `vs`.
spared_replacement :
    (us : List ScopedPatchUnit) (v : ScopedPatchUnit) (vs : List ScopedPatchUnit)
    → Separate us (v ∷ vs)
    → All (λ j. Spares j (install_job v)) (installs us)
spared_replacement [] v vs s = tt
spared_replacement (u ∷ us) v vs s = (s.0.0.0, spared_replacement us v vs s.1)

replacements_kept :
    (f : Bytes) (us vs : List ScopedPatchUnit)
    → Separate us vs
    → Agree f (written f f (installs us)) (installs vs)
replacements_kept f us [] s = tt
replacements_kept f us (v ∷ vs) s = (
  slice-written f f (installs us) v.replacement.start v.replacement.size
      (spared_replacement us v vs s),
  replacements_kept f us vs (Separate-tail us v vs s),
)

LeavesOriginal-refl : (f : Bytes) (vs : List ScopedPatchUnit) → All (LeavesOriginal f f) vs
LeavesOriginal-refl f [] = tt
LeavesOriginal-refl f (v ∷ vs) = (refl, LeavesOriginal-refl f vs)

module _ (win : Windows) (laws : WindowsLaws win) (us : List ScopedPatchUnit) (w : World win.Kernel)
    (c : All (IsCaptured win w) us) (s : Separate us us) where
  open win use {Kernel}

  abbrev Shows : (on : Bool) → Bytes → Type 0
  Shows on f = f ≡ shown w.bytes us on

  agrees : (on : Bool) → Agree w.bytes (shown w.bytes us on) (installs us)
  agrees true =
      subst (λ f. Agree w.bytes f (installs us)) (written-eq-patched w.bytes us)
        (replacements_kept w.bytes us us s)
  agrees false = Agree-refl w.bytes (installs us)

  originals :
      (on : Bool) (vs : List ScopedPatchUnit)
      → All (IsCaptured win w) vs
      → Separate us vs
      → All
          (λ j. slice (shown w.bytes us on) j.src j.size ≡ slice w.bytes j.dst j.size)
          (restores vs)
  originals true vs c s =
      originals_kept win w (patched w.bytes us) us vs c s
        (LeavesOriginal-refl (patched w.bytes us) vs)
  originals false [] c s = tt
  originals false (v ∷ vs) c s = (c.0.captured, originals false vs c.1 (Separate-tail us v vs s))

  turn_on :
      (on : Bool) (u : World Kernel)
      → Shows on u.bytes
      → Same win w.kernel u.kernel
      → Returns (Kept win u (λ _ f. Shows true f)) (toggle win true (record { units = us }) u)
  unfolding toggle
  turn_on on u e k = rw (install-copy_each win us) (
      Returns.mono
        (copy_each-Agree win laws w.bytes (installs us) u
          (CanCopy-Same win (installs us) (can_installs win w us c) k) (installs-Independent us s)
          (subst (λ f. Agree w.bytes f (installs us)) (sym e) (agrees on)))
        λ _ v (f, t). (
          f
              ∙ fun_ext λ a. ground (
                arith,
                written-patched w.bytes u.bytes us a,
                patched_uncovered w.bytes us a,
                ap (λ (g : Bytes). g a) e,
              ),
          t,
        ))

  turn_off :
      (on : Bool) (u : World Kernel)
      → Shows on u.bytes
      → Same win w.kernel u.kernel
      → Returns (Kept win u (λ _ f. Shows false f)) (toggle win false (record { units = us }) u)
  unfolding toggle
  turn_off on u e k = rw (remove-copy_each win us) (
      Returns.mono
        (copy_each-written win laws (restores us) u
          (CanCopy-Same win (restores us) (can_restores win w us c) k)
          (restores-Independent win w us c s))
        λ _ v (f, t). (
          f
              ∙ fun_ext λ a.
                written_back u.bytes u.bytes w.bytes (restores us) a (
                  subst
                    (λ g.
                      All (λ j. slice g j.src j.size ≡ slice w.bytes j.dst j.size) (restores us))
                    (sym e) (originals on us c s))
                ∙ ground (
                  arith,
                  touched-restores win w us a c,
                  patched_uncovered w.bytes us a,
                  ap (λ (g : Bytes). g a) e,
                ),
          t,
        ))

  toggles-Shows :
      (statuses : List Bool) (on : Bool) (u : World Kernel)
      → Shows on u.bytes
      → Same win w.kernel u.kernel
      → Returns
          (Kept win w (λ _ f. Shows (last_status on statuses) f))
          (toggles win statuses (record { units = us }) u)
  toggles-Shows [] on u e k = returns (e, k)
  toggles-Shows (true ∷ statuses) on u e k =
      Returns.bind (turn_on on u e k)
        λ _ v (f, t). toggles-Shows statuses true v f (Same-trans win k t)
  toggles-Shows (false ∷ statuses) on u e k =
      Returns.bind (turn_off on u e k)
        λ _ v (f, t). toggles-Shows statuses false v f (Same-trans win k t)

  -- Where each unit of a patch can be installed and restored, its original holds the bytes of its
  -- range and is as long as its replacement, and no range meets a vector of a unit: toggling the
  -- patch any number of times, to any statuses, returns. If the last status is true, each address
  -- then holds the byte of the last unit that covers it, or else its own; if it is false, or there
  -- is none, each holds its own. Every protection is as before. Ranges may overlap.
  pub toggles-shown :
      (statuses : List Bool)
      → Returns
          (Kept win w (λ _ f. f ≡ shown w.bytes us (last_status false statuses)))
          (toggles win statuses (record { units = us }) w)
  toggles-shown statuses = toggles-Shows statuses false w refl (Same-refl win w.kernel)
