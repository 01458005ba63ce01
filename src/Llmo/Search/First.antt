-- ===== src/Llmo/Search/First.antt =====
-- search_memory_pattern finds the first place in a module where the pattern stands.
use memwrapper.Base.{
  ℕ, zero, suc, ◌+◌, ◌≤◌, ◌<◌, ◌≡◌, ◌≢◌, refl, ap, ◌∙◌, ◌⊎◌, inl, inr, false, some, arith, add32,
  leb, ◌==◌, ==_iff, ne_of_==, Bool-cases,
}
use mathlib.Core.Path.{subst}
use memwrapper.Machine.{World, Bytes, load, slice}
use memwrapper.Machine.Returns
use memwrapper.Machine.Returns.{Returns, returns}
use memwrapper.Machine.Run.{CanRead, read_bytes-slice}
use memwrapper.Windows.{Windows, cpu, MemoryBasicInformation}
use memwrapper.Detail.Bytes.{number}
use memwrapper.Llmo.Search.{
  StringView, any_byte, load_word, compare_from, search_from, search_module, search_memory_pattern,
}

eq_false : {a b : ℕ} → a ≢ b → (a == b) ≡ false
eq_false h = ground arith

-- The byte that stands `i` after `at` is one that the pattern and the mask allow there.
abbrev pub Fits : Bytes → (pattern mask : StringView) → (at i : ℕ) → Type 0
Fits f pattern mask at i = (f (mask.start + i) ≡ any_byte) ⊎ (f (at + i) ≡ f (pattern.start + i))

-- The whole mask fits at an address, and ends no later than `end`.
pub record Matches (f : Bytes) (pattern mask : StringView) (end at : ℕ) : Type 0 where
  pub fits : (i : ℕ) → i < mask.size → Fits f pattern mask at i
  pub inside : at + mask.size ≤ end

-- The mask is text that ends with its first NUL.
pub record IsText (f : Bytes) (mask : StringView) : Type 0 where
  pub ended : f (mask.start + mask.size) ≡ 0
  pub nonzero : (i : ℕ) → i < mask.size → f (mask.start + i) ≢ 0

-- The first match of the range, or 0 if there is none.
abbrev pub First : Bytes → (pattern mask : StringView) → (from end : ℕ) → ℕ → Type 0
First f pattern mask from end r =
    ((from ≤ r)
      × (r < end)
      × Matches f pattern mask end r
      × ((b : ℕ) → from ≤ b → b < r → ¬ Matches f pattern mask end b))
    ⊎ ((r ≡ 0) × ((b : ℕ) → from ≤ b → b < end → ¬ Matches f pattern mask end b))

module _ {K : Type 0} where
  -- A run that returns `P` of its value and changes nothing.
  abbrev pub Reads : World K → (ℕ → Type 0) → ℕ → World K → Type 0
  Reads w P r v = P r × (v ≡ w)

module _ (win : Windows) (pattern mask : StringView) where
  open win use {Kernel}

  pub record Readable (k : Kernel) (at n : ℕ) : Type 0 where
    pub image : CanRead (cpu win) k at n
    pub characters : CanRead (cpu win) k mask.start (mask.size + 1)
    pub bytes : CanRead (cpu win) k pattern.start mask.size

  -- The loop over the mask reaches its end exactly where the mask fits.
  abbrev Compared : Bytes → (now end : ℕ) → ℕ → Type 0
  Compared f now end j =
      ((j ≡ mask.size) × Matches f pattern mask end now)
      ⊎ ((j < mask.size) × ¬ Matches f pattern mask end now)

  -- The characters below `i` fit.
  abbrev Fitting : Bytes → (now i : ℕ) → Type 0
  Fitting f now i = (j : ℕ) → j < i → Fits f pattern mask now j

  Fitting-suc :
      (f : Bytes) (now i : ℕ) → Fitting f now i → Fits f pattern mask now i → Fitting f now (i + 1)
  Fitting-suc f now i before here j lt = elim (Bool-cases (j == i)) [
    | inl e ↦ rw ((==_iff j i).0 e) here
    | inr e ↦ before j (omega (arith, ne_of_== j i e))
  ]

  compare_from-Compared :
      (now n left i : ℕ) (w : World Kernel)
      → Readable w.kernel now n
      → i + left ≡ mask.size
      → now + i ≤ now + n
      → Fitting w.bytes now i
      → Returns
          (Reads w (Compared w.bytes now (now + n)))
          (compare_from win pattern mask now (now + n) left i w)
  unfolding compare_from load
  compare_from-Compared now n zero i w r e le before = returns (
    inl (omega arith, record { fits = λ j lt. before j (omega arith); inside = omega arith }),
    refl,
  )
  compare_from-Compared now n (suc left) i w r e le before =
      elim (Bool-cases (leb (now + n) (now + i))) [
        | inl past ↦
            rw past (returns (inr (omega arith, λ m. absurd (ground (arith, m.inside))), refl))
        | inr inside ↦ elim (Bool-cases (w.bytes (mask.start + i) == any_byte)) [
          | inl any ↦
              rw (inside, r.characters i (omega arith), r.bytes i (omega arith), any)
                (compare_from-Compared now n left (i + 1) w r (omega arith) (ground arith)
                  (Fitting-suc w.bytes now i before (inl ((==_iff _ _).0 any))))
          | inr exact ↦ elim (Bool-cases (w.bytes (now + i) == w.bytes (pattern.start + i))) [
            | inl hit ↦
                rw
                  (
                    inside,
                    r.characters i (omega arith),
                    r.bytes i (omega arith),
                    exact,
                    r.image i (ground arith),
                    hit,
                  )
                  (compare_from-Compared now n left (i + 1) w r (omega arith) (ground arith)
                    (Fitting-suc w.bytes now i before (inr ((==_iff _ _).0 hit))))
            | inr miss ↦
                rw
                  (
                    inside,
                    r.characters i (omega arith),
                    r.bytes i (omega arith),
                    exact,
                    r.image i (ground arith),
                    miss,
                  )
                  (returns (
                    inr (
                      omega arith,
                      λ m. elim (m.fits i (omega arith)) [
                        | inl any ↦ ne_of_== _ _ exact any
                        | inr same ↦ ne_of_== _ _ miss same
                      ],
                    ),
                    refl,
                  ))
          ]
        ]
      ]

  -- A place that does not match may be added in front.
  First-cons :
      (f : Bytes) (now end r : ℕ)
      → now < end
      → ¬ Matches f pattern mask end now
      → First f pattern mask (now + 1) end r
      → First f pattern mask now end r
  First-cons f now end r lt miss (inl (le, below, m, before)) = inl (
    omega arith,
    below,
    m,
    λ b lo hi. elim (Bool-cases (b == now)) [
      | inl e ↦ rw ((==_iff b now).0 e) miss
      | inr e ↦ before b (omega (arith, ne_of_== b now e)) hi
    ],
  )
  First-cons f now end r lt miss (inr (e, none)) = inr (
    e,
    λ b lo hi. elim (Bool-cases (b == now)) [
      | inl e ↦ rw ((==_iff b now).0 e) miss
      | inr e ↦ none b (omega (arith, ne_of_== b now e)) hi
    ],
  )

  Readable-suc : (k : Kernel) (now n : ℕ) → Readable k now (suc n) → Readable k (now + 1) n
  Readable-suc k now n r = record {
    image = λ i lt. ap ((cpu win).can_read k) (omega arith) ∙ r.image (suc i) (omega arith);
    characters = r.characters;
    bytes = r.bytes;
  }

  search_from-First :
      (n now : ℕ) (w : World Kernel)
      → Readable w.kernel now n
      → IsText w.bytes mask
      → Returns
          (Reads w (First w.bytes pattern mask now (now + n)))
          (search_from win pattern mask n now w)
  unfolding search_from load
  search_from-First zero now w r t = returns (inr (refl, λ b lo hi. absurd (omega arith)), refl)
  search_from-First (suc n) now w r t =
      Returns.bind
        (compare_from-Compared now (suc n) mask.size 0 w r (omega arith) (omega arith)
          (λ j lt. elim lt [ ]))
        λ j v (c, e). rw e (elim c [
          | inl (full, m) ↦
              rw
                (
                  r.characters j (omega arith),
                  (==_iff (w.bytes (mask.start + j)) 0).1
                      (ap (λ k. w.bytes (mask.start + k)) full ∙ t.ended),
                )
                (returns (inl (omega arith, omega arith, m, λ b lo hi. absurd (omega arith)), refl))
          | inr (short, miss) ↦
              rw (r.characters j (omega arith), eq_false (t.nonzero j short))
                (Returns.mono (search_from-First n (now + 1) w (Readable-suc w.kernel now n r) t)
                  λ x u (found, same). (
                    First-cons w.bytes now (now + suc n) x (omega arith) miss (
                        subst (λ end. First w.bytes pattern mask (now + 1) end x) (omega arith)
                          found),
                    same,
                  ))
        ])

module _ (win : Windows) where
  open win use {Kernel}

  -- The address of IMAGE_NT_HEADERS of an image.
  abbrev pub nt_headers : Bytes → (base : ℕ) → ℕ
  nt_headers f base = add32 base (number (slice f (base + win.e_lfanew) 4))

  -- An image of `n` bytes, by its headers, which may be read.
  pub record IsImage (base n : ℕ) (w : World Kernel) : Type 0 where
    pub dos : CanRead (cpu win) w.kernel (base + win.e_lfanew) 4
    pub nt : CanRead (cpu win) w.kernel (nt_headers w.bytes base + win.signature) 4
    pub optional : CanRead (cpu win) w.kernel (nt_headers w.bytes base + win.size_of_image) 4
    pub is_pe :
        number (slice w.bytes (nt_headers w.bytes base + win.signature) 4) ≡ win.image_nt_signature
    pub has_size : number (slice w.bytes (nt_headers w.bytes base + win.size_of_image) 4) ≡ n

  load_word-number :
      (at : ℕ) (w : World Kernel)
      → CanRead (cpu win) w.kernel at 4
      → load_word win at w ≡ some (number (slice w.bytes at 4), w)
  unfolding load_word
  load_word-number at w r = rw (read_bytes-slice (cpu win) at 4 w r)

  -- In a loaded module whose headers and bytes may be read, with a mask that ends with its first
  -- NUL and a pattern that may be read as far as the mask goes: the search returns, changes
  -- nothing, and gives the first address of the image at which the whole mask fits and ends within
  -- the image, or 0 if there is none.
  pub search_memory_pattern-First :
      (mod_name n : ℕ) (pattern mask : StringView) (mbi : MemoryBasicInformation) (w : World Kernel)
      → win.get_module_handle w.bytes mod_name w.kernel ≢ 0
      → win.virtual_query (win.get_module_handle w.bytes mod_name w.kernel) w.kernel ≡ some mbi
      → IsImage mbi.allocation_base n w
      → Readable win pattern mask w.kernel mbi.allocation_base n
      → IsText w.bytes mask
      → Returns
          (Reads w (First w.bytes pattern mask mbi.allocation_base (mbi.allocation_base + n)))
          (search_memory_pattern win mod_name pattern mask w)
  unfolding search_memory_pattern search_module
  search_memory_pattern-First mod_name n pattern mask mbi w loaded query image r t =
      rw
        (
          eq_false loaded,
          query,
          load_word-number (base + win.e_lfanew) w image.dos,
          load_word-number (nt_headers w.bytes base + win.signature) w image.nt,
          (==_iff _ _).1 image.is_pe,
          load_word-number (nt_headers w.bytes base + win.size_of_image) w image.optional,
          image.has_size,
        )
        (search_from-First win pattern mask n base w r t)
    where
      base : ℕ
      base = mbi.allocation_base
