-- ===== src/Machine/Overlay.antt =====
-- Laws of `slice` and `overlay`: what a byte is after a list has been written.
use memwrapper.Base.{
  ℕ, zero, suc, ◌+◌, ◌-◌, ◌≤◌, ◌<◌, ◌≡◌, refl, ap, ◌∙◌, fun_ext, List, [], ◌∷◌, ◌++◌, ◌⊎◌, arith,
  length, get_or, within, if◌then◌else◌,
}
use mathlib.Core.Path.{ap₂}
use memwrapper.Machine.{Bytes, update, slice, overlay}

pub length-slice : (f : Bytes) (p n : ℕ) → length (slice f p n) ≡ n
unfolding slice
length-slice f p zero = refl
length-slice f p (suc n) = ap suc (length-slice f (p + 1) n)

pub get_or-slice : (f : Bytes) (p n i : ℕ) → i < n → get_or (slice f p n) i 0 ≡ f (p + i)
unfolding slice
get_or-slice f p zero i h = elim h [ ]
get_or-slice f p (suc n) zero h = ap f (omega arith)
get_or-slice f p (suc n) (suc i) h = get_or-slice f (p + 1) n i (omega arith) ∙ ap f (omega arith)

-- Two functions that agree on a range have the same slice there.
pub slice-ext :
    (f g : Bytes) (p q n : ℕ)
    → ((i : ℕ) → i < n → f (p + i) ≡ g (q + i))
    → slice f p n ≡ slice g q n
unfolding slice
slice-ext f g p q zero h = refl
slice-ext f g p q (suc n) h =
    ap₂ ◌∷◌ (ap f (omega arith) ∙ h 0 (omega arith) ∙ ap g (omega arith)) (
      slice-ext f g (p + 1) (q + 1) n
        λ i lt. ap f (omega arith) ∙ h (suc i) (omega arith) ∙ ap g (omega arith))

get_or-cons : (b : ℕ) (bs : List ℕ) (i : ℕ) → 0 < i → get_or (b ∷ bs) i 0 ≡ get_or bs (i - 1) 0
get_or-cons b bs zero h = elim h [ ]
get_or-cons b bs (suc i) h = ap (λ k. get_or bs k 0) (omega arith)

index : (a p : ℕ) → a - (p + 1) ≡ a - p - 1
index a p = omega arith

get_or_self : (b : ℕ) (bs : List ℕ) (i : ℕ) → i ≡ 0 → get_or (b ∷ bs) i 0 ≡ b
get_or_self b bs zero h = refl
get_or_self b bs (suc i) h = absurd (omega arith)

pub overlay_at :
    (f : Bytes) (p : ℕ) (bs : List ℕ) (a : ℕ)
    → overlay f p bs a ≡ (if within p (length bs) a then get_or bs (a - p) 0 else f a)
unfolding overlay
overlay_at f p [] a = ground arith
overlay_at f p (b ∷ bs) a = ground (
  arith,
  overlay_at (update f p b) (p + 1) bs a,
  get_or-cons b bs (a - p),
  get_or_self b bs (a - p),
  ap (λ k. get_or bs k 0) (index a p),
)

-- Writing back what `g` holds on a range gives `g` there.
pub overlay-slice :
    (f g : Bytes) (p n a : ℕ) → overlay f p (slice g p n) a ≡ (if within p n a then g a else f a)
overlay-slice f g p n a =
    ground (arith, overlay_at f p (slice g p n) a, length-slice g p n, get_or-slice g p n (a - p))

-- A list that was written is read back.
pub slice-overlay : (f : Bytes) (p : ℕ) (bs : List ℕ) → slice (overlay f p bs) p (length bs) ≡ bs
unfolding slice overlay update
slice-overlay f p [] = refl
slice-overlay f p (b ∷ bs) =
    ap₂ ◌∷◌ (ground (arith, overlay_at (update f p b) (p + 1) bs p))
      (slice-overlay (update f p b) (p + 1) bs)

-- A write elsewhere is not seen.
pub slice-overlay_apart :
    (f : Bytes) (p : ℕ) (bs : List ℕ) (q n : ℕ)
    → (p + length bs ≤ q) ⊎ (q + n ≤ p)
    → slice (overlay f p bs) q n ≡ slice f q n
slice-overlay_apart f p bs q n h =
    slice-ext (overlay f p bs) f q q n λ i lt. ground (arith, overlay_at f p bs (q + i))

pub overlay-append :
    (f : Bytes) (p : ℕ) (xs ys : List ℕ)
    → overlay f p (xs ++ ys) ≡ overlay (overlay f p xs) (p + length xs) ys
unfolding overlay
overlay-append f p [] ys = ap (λ k. overlay f k ys) (omega arith)
overlay-append f p (x ∷ xs) ys =
    overlay-append (update f p x) (p + 1) xs ys
    ∙ ap (λ k. overlay (overlay (update f p x) (p + 1) xs) k ys) (omega arith)

pub slice-add : (f : Bytes) (p m n : ℕ) → slice f p (m + n) ≡ slice f p m ++ slice f (p + m) n
unfolding slice
slice-add f p zero n = ap₂ (slice f) (omega arith) (omega arith)
slice-add f p (suc m) n =
    ap (slice f p) {y = suc (m + n)} (omega arith)
    ∙ ap (λ xs. f p ∷ xs)
        (slice-add f (p + 1) m n ∙ ap (λ q. slice f (p + 1) m ++ slice f q n) (omega arith))

-- Two lists that stand one after the other stand each in its place.
pub slice_parts :
    (f : Bytes) (p : ℕ) (xs ys : List ℕ)
    → slice f p (length (xs ++ ys)) ≡ xs ++ ys
    → (slice f p (length xs) ≡ xs) × (slice f (p + length xs) (length ys) ≡ ys)
unfolding slice
slice_parts f p [] ys h = (refl, ap (λ q. slice f q (length ys)) (omega arith) ∙ h)
slice_parts f p (x ∷ xs) ys h =
    let (first, second) = slice_parts f (p + 1) xs ys (cc h) in
    (cc (first, h), ap (λ q. slice f q (length ys)) (omega arith) ∙ second)

-- The first byte is the one that stands there.
pub overlay-cons_same :
    (f : Bytes) (p : ℕ) (bs : List ℕ) → overlay f p (f p ∷ bs) ≡ overlay f (p + 1) bs
unfolding overlay update
overlay-cons_same f p bs =
    ap (λ g. overlay g (p + 1) bs) (fun_ext λ a. ground (arith, ap f {x = a} {y = p}))
