-- ===== src/Patch/Jobs.antt =====
-- A sequence of copies, to which `install` and `remove` come down.
use memwrapper.Base.{
  ℕ, ◌≡◌, refl, ap, ◌∙◌, Bool, false, ◌||◌, List, [], ◌∷◌, arith, All, Apart, within, if◌then◌else◌,
}
use memwrapper.Machine.{Bytes, World, M, pure, ◌>>◌, slice, overlay}
use memwrapper.Machine.Overlay.{length-slice, slice-overlay_apart, overlay_at, overlay-slice}
use memwrapper.Machine.Returns
use memwrapper.Machine.Returns.{Returns, returns}
use memwrapper.Machine.Run.{CanRead}
use memwrapper.Windows.{Windows, WindowsLaws, cpu}
use memwrapper.Llmo.Unprotect.Scope.{Same, Same-refl, Same-trans}
use memwrapper.Llmo.Operations.{copy_memory}
use memwrapper.Llmo.Operations.Kept.{IsOpen, IsOpen-Same, CanRead-Same, Kept, copy_memory-Kept}

pub record Job : Type 0 where
  pub dst : ℕ
  pub src : ℕ
  pub size : ℕ

-- The destination of the one does not meet the source of the other.
abbrev pub Spares : Job → Job → Type 0
Spares j i = Apart j.dst j.size i.src i.size

-- No copy changes the source of a later one.
abbrev pub Independent : List Job → Type 0
Independent [] = Unit
Independent (j ∷ js) = All (Spares j) js × Independent js

-- `f` with the copies made in order, their sources read in `g`.
abbrev pub written : Bytes → Bytes → List Job → Bytes
written g f [] = f
written g f (j ∷ js) = written g (overlay f j.dst (slice g j.src j.size)) js

-- The address lies in the destination of a copy.
abbrev pub touched : List Job → ℕ → Bool
touched [] a = false
touched (j ∷ js) a = within j.dst j.size a || touched js a

pub written_untouched :
    (g f : Bytes) (js : List Job) (a : ℕ) → touched js a ≡ false → written g f js a ≡ f a
written_untouched g f [] a h = refl
written_untouched g f (j ∷ js) a h = ground (
  arith,
  written_untouched g (overlay f j.dst (slice g j.src j.size)) js a,
  overlay_at f j.dst (slice g j.src j.size) a,
  length-slice g j.src j.size,
)

-- Copies that put back what `m` holds at their destinations.
pub written_back :
    (g f m : Bytes) (js : List Job) (a : ℕ)
    → All (λ (j : Job). slice g j.src j.size ≡ slice m j.dst j.size) js
    → written g f js a ≡ (if touched js a then m a else f a)
written_back g f m [] a h = refl
written_back g f m (j ∷ js) a h =
    written_back g (overlay f j.dst (slice g j.src j.size)) m js a h.1
    ∙ ground (arith, ap (λ xs. overlay f j.dst xs a) h.0, overlay-slice f m j.dst j.size a)

pub slice-written :
    (g f : Bytes) (js : List Job) (q n : ℕ)
    → All (λ (j : Job). Apart j.dst j.size q n) js
    → slice (written g f js) q n ≡ slice f q n
slice-written g f [] q n h = refl
slice-written g f (j ∷ js) q n h =
    slice-written g (overlay f j.dst (slice g j.src j.size)) js q n h.1
    ∙ slice-overlay_apart f j.dst (slice g j.src j.size) q n (rw (length-slice g j.src j.size) h.0)

module _ (win : Windows) where
  open win use {Kernel}

  unfoldable pub copy_each : List Job → M Kernel (Unit {0})
  copy_each [] = pure tt
  copy_each (j ∷ js) = copy_memory win j.dst j.src j.size >> copy_each js

  -- A copy that cannot fault.
  pub record CanCopy (k : Kernel) (j : Job) : Type 0 where
    pub target : IsOpen win k j.dst j.size
    pub source : CanRead (cpu win) k j.src j.size

  pub CanCopy-Same :
      {k k' : Kernel} (js : List Job) → All (CanCopy k) js → Same win k k' → All (CanCopy k') js
  CanCopy-Same [] c s = tt
  CanCopy-Same (j ∷ js) c s = (
    record {
      target = IsOpen-Same win j.dst j.size c.0.target s;
      source = CanRead-Same win j.src j.size c.0.source s;
    },
    CanCopy-Same js c.1 s,
  )

-- The sources hold in `f` what they hold in `g`.
abbrev pub Agree : Bytes → Bytes → List Job → Type 0
Agree g f = All (λ (j : Job). slice f j.src j.size ≡ slice g j.src j.size)

pub Agree-refl : (g : Bytes) (js : List Job) → Agree g g js
Agree-refl g [] = tt
Agree-refl g (j ∷ js) = (refl, Agree-refl g js)

Agree-overlay :
    (g f : Bytes) (j : Job) (js : List Job)
    → Agree g f js
    → All (Spares j) js
    → Agree g (overlay f j.dst (slice g j.src j.size)) js
Agree-overlay g f j [] h s = tt
Agree-overlay g f j (i ∷ js) h s = (
  slice-overlay_apart f j.dst (slice g j.src j.size) i.src i.size
        (rw (length-slice g j.src j.size) s.0)
      ∙ h.0,
  Agree-overlay g f j js h.1 s.1,
)

module _ (win : Windows) (laws : WindowsLaws win) where
  open win use {Kernel}

  pub copy_each-Agree :
      (g : Bytes) (js : List Job) (w : World Kernel)
      → All (CanCopy win w.kernel) js
      → Independent js
      → Agree g w.bytes js
      → Returns (Kept win w (λ _ f. f ≡ written g w.bytes js)) (copy_each win js w)
  unfolding copy_each
  copy_each-Agree g [] w c i h = returns (refl, Same-refl win w.kernel)
  copy_each-Agree g (j ∷ js) w c i h =
      Returns.bind (copy_memory-Kept win laws j.dst j.src j.size w c.0.target c.0.source)
        λ _ u (e, s).
          let e' = e ∙ ap (overlay w.bytes j.dst) h.0 in
          Returns.mono
            (copy_each-Agree g js u (CanCopy-Same win js c.1 s) i.1
              (rw e' (Agree-overlay g w.bytes j js h.1 i.0)))
            λ _ v (f, t). (f ∙ ap (λ b. written g b js) e', Same-trans win s t)

  -- Copies of which none changes a later source: the sources are read as they were at first.
  pub copy_each-written :
      (js : List Job) (w : World Kernel)
      → All (CanCopy win w.kernel) js
      → Independent js
      → Returns (Kept win w (λ _ f. f ≡ written w.bytes w.bytes js)) (copy_each win js w)
  copy_each-written js w c i = copy_each-Agree w.bytes js w c i (Agree-refl w.bytes js)
