-- ===== src/Patch/Block.antt =====
-- A block with a scoped_patch, from the copies that its constructor makes to its destructor.
use memwrapper.Base.{
  ℕ, ◌≡◌, refl, ◌∙◌, true, false, List, [], ◌∷◌, arith, All, within, if◌then◌else◌, Bool-cases, inl,
  inr,
}
use memwrapper.Machine.{Bytes, World, M}
use memwrapper.Machine.Returns
use memwrapper.Machine.Returns.{Returns}
use memwrapper.Windows.{Windows, WindowsLaws}
use memwrapper.Llmo.Unprotect.Scope.{Same}
use memwrapper.Llmo.Operations.Kept.{Kept}
use memwrapper.Patch.{ScopedPatchUnit, CopySource, block}
use memwrapper.Patch.Copies.{Sources, copies, with_copies, stored, construct_patch-copies}
use memwrapper.Patch.Undo.{Separate, LeavesOriginal, patched_block-undo}
use memwrapper.Patch.Units.{SparesVectors, covered, patched}

-- A range that spares the vectors of the copies spares the new storage.
spared :
    (u : ScopedPatchUnit) (ss : List CopySource) (a : ℕ)
    → All (SparesVectors u) (copies ss)
    → within u.address u.replacement.size a ≡ true
    → stored ss a ≡ false
spared u [] a s i = refl
spared u (t ∷ ss) a s i =
    let rest : stored ss a ≡ false = spared u ss a s.1 i in ground (arith, s.0.0, s.0.1, i, rest)

covered-stored :
    (us : List ScopedPatchUnit) (ss : List CopySource) (a : ℕ)
    → Separate us (copies ss)
    → covered us a ≡ true
    → stored ss a ≡ false
covered-stored [] ss a s c = cc
covered-stored (u ∷ us) ss a s c = elim (Bool-cases (within u.address u.replacement.size a)) [
  | inl i ↦ spared u ss a s.0 i
  | inr out ↦ covered-stored us ss a s.1 (ground (arith, c, out))
]

module _ (win : Windows) (laws : WindowsLaws win) where
  open win use {Kernel}

  -- Let units be given that can be installed and restored, each with an original that is as long as
  -- its replacement and holds the bytes of its range; let the storage that the copies of their
  -- vectors get be accessible and apart from all vectors and ranges and in itself, and let no range
  -- meet a vector of the copies. A block that makes a patch of them and installs it runs its body
  -- where the units have been copied and each address holds the byte of the last copy that covers
  -- it, or else its own, with every protection as before. If the body returns with the same kernel
  -- and leaves the storage of the copies' originals alone, the block returns, each covered address
  -- holds its first byte again, and nothing else has changed since the body. Ranges may overlap.
  pub scoped_patch-undo :
      (ss : List CopySource) (body : M Kernel (Unit {0})) (g : Bytes) (w : World Kernel)
      → Sources win w ss
      → Separate (copies ss) (copies ss)
      → All (LeavesOriginal g (patched (with_copies w.bytes ss) (copies ss))) (copies ss)
      → ((u : World Kernel)
          → u.bytes ≡ patched (with_copies w.bytes ss) (copies ss)
          → Same win w.kernel u.kernel
          → Returns (Kept win u (λ _ f. f ≡ g)) (body u))
      → Returns
          (Kept win w (λ _ f. (a : ℕ) → f a ≡ (if covered (copies ss) a then w.bytes a else g a)))
          (block win ss body w)
  unfolding block
  scoped_patch-undo ss body g w h s left run =
      let (made, captured, _, outside) = construct_patch-copies win ss w h in
      rw made (
        Returns.mono
          (patched_block-undo win laws (copies ss) body g
            (record w { bytes = with_copies w.bytes ss }) captured s left run)
          λ _ v (bytes, same). (
            λ a. elim (Bool-cases (covered (copies ss) a)) [
              | inl c ↦ bytes a ∙ rw c (outside a (covered-stored (copies ss) ss a s c))
              | inr out ↦ bytes a ∙ rw out refl
            ],
            same,
          ))
