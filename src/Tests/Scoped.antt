-- ===== src/Tests/Scoped.antt =====
-- scoped_unprotect, scoped_write, scoped_copy and scoped_fill on the simulated operating system.
use memwrapper.Base.{ℕ, ◌≡◌, refl, [], ◌∷◌, arith, within, if◌then◌else◌, inr}
use memwrapper.Machine.{Bytes, pure, slice, overlay}
use memwrapper.Machine.Returns.{Returns, returns}
use memwrapper.Windows.Simulation.{simulation, simulation-laws}
use memwrapper.Llmo.Unprotect.{unprotected}
use memwrapper.Llmo.Unprotect.Scope.{Same-refl, Protected, unprotected-Protected}
use memwrapper.Llmo.Operations.Kept.{Kept}
use memwrapper.Scoped.Write
use memwrapper.Scoped.Write.Laws.{scoped_write-undo}
use memwrapper.Scoped.Copy
use memwrapper.Scoped.Copy.Laws.{scoped_copy-undo}
use memwrapper.Scoped.Fill
use memwrapper.Scoped.Fill.Laws.{scoped_fill-undo}
use memwrapper.Scoped.Backup.{saved, IsSite}
use memwrapper.Tests.Memory.{read_only, guarded, read_only-IsOpen}

unprotected-Protected_example :
    Returns
      (λ (_ : Unit {0}) v.
        (v.bytes ≡ guarded.bytes) × Protected simulation 0x2004 4 1 guarded.kernel v.kernel)
      (unprotected simulation 0x2004 4 (pure tt) guarded)
unprotected-Protected_example =
    unprotected-Protected simulation simulation-laws (λ _ f. f ≡ guarded.bytes) 0x2004 4 (pure tt)
      guarded refl λ u e s. returns (e, Same-refl simulation u.kernel)

-- A value of two bytes in place of 0x10 and 0x11, and a body that does nothing.
abbrev write_installed : Bytes
write_installed = overlay read_only.bytes 0x1010 (7 ∷ 8 ∷ 9 ∷ 9 ∷ [])

scoped_write-undo_example :
    Returns
      (Kept simulation read_only (λ _ f.
        (a : ℕ) → f a ≡ (if within 0x1010 4 a then read_only.bytes a else write_installed a)))
      (Write.block simulation 0x1010 4 (7 ∷ 8 ∷ 9 ∷ 9 ∷ []) (pure tt) read_only)
scoped_write-undo_example =
    scoped_write-undo simulation simulation-laws 0x1010 4 (7 ∷ 8 ∷ 9 ∷ 9 ∷ []) (pure tt)
      write_installed read_only read_only-IsOpen refl
      λ u e s. returns (e, Same-refl simulation u.kernel)

site : IsSite simulation read_only.kernel 0x3000 0x1010 2
site = record {
  store = record { commit = refl; uniform = λ a h. refl };
  target = record { commit = refl; uniform = λ a h. refl };
  store_read = λ i h. refl;
  target_read = λ i h. refl;
  apart = inr (omega arith);
}

abbrev copy_installed : Bytes
copy_installed = saved read_only.bytes 0x3000 0x1010 2 (slice read_only.bytes 0x2020 2)

scoped_copy-undo_example :
    Returns
      (Kept simulation read_only (λ _ f.
        (a : ℕ) → f a ≡ (if within 0x1010 2 a then read_only.bytes a else copy_installed a)))
      (Copy.block simulation 2 0x3000 0x1010 0x2020 (pure tt) read_only)
scoped_copy-undo_example =
    scoped_copy-undo simulation simulation-laws 0x3000 0x1010 0x2020 2 (pure tt) copy_installed
      read_only site (λ i h. refl) (inr (omega arith)) (λ i h. refl)
      λ u e s. returns (e, Same-refl simulation u.kernel)

abbrev fill_installed : Bytes
fill_installed = saved read_only.bytes 0x3000 0x1010 2 (0x90 ∷ 0x90 ∷ [])

scoped_fill-undo_example :
    Returns
      (Kept simulation read_only (λ _ f.
        (a : ℕ) → f a ≡ (if within 0x1010 2 a then read_only.bytes a else fill_installed a)))
      (Fill.block simulation 2 0x3000 0x1010 0x90 (pure tt) read_only)
scoped_fill-undo_example =
    scoped_fill-undo simulation simulation-laws 0x3000 0x1010 0x90 2 (pure tt) fill_installed
      read_only site (λ i h. refl) λ u e s. returns (e, Same-refl simulation u.kernel)
