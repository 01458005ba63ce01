-- ===== src/Llmo/Unprotect/Scope.antt =====
-- What a `scoped_unprotect` does to the protections of pages, and to the block that it guards.
use memwrapper.Base.{
  ℕ, ◌+◌, ◌-◌, ◌/◌, ◌≤◌, ◌<◌, ◌≡◌, refl, sym, ◌∙◌, true, none, arith, if◌then◌else◌, Bool-cases,
  inl, inr,
}
use native.Mathlib.Nat.{le-div_iff_mul-le, div-mul-le_self, le_trans}
use memwrapper.Machine.{Bytes, World, M}
use memwrapper.Machine.Returns
use memwrapper.Machine.Returns.{Returns, returns}
use memwrapper.Machine.Run.{CanRead, CanWrite}
use memwrapper.Windows.{Windows, WindowsLaws, cpu, in_pages}
use memwrapper.Llmo.Unprotect.{
  construct, destroy, unprotected, convert_memory_protection_constant, good,
}

pub div_mono : (a b d : ℕ) → 0 < d → a ≤ b → a / d ≤ b / d
div_mono a b d pos h = (le-div_iff_mul-le pos).1 (le_trans (div-mul-le_self a d) h)

module _ (win : Windows) where
  open win use {Kernel, protection, committed, reserved}

  -- `k'` has the protections, the committed pages and the regions of `k`.
  pub record Same (k k' : Kernel) : Type 0 where
    pub protections : (a : ℕ) → protection k' a ≡ protection k a
    pub commits : (q m : ℕ) → committed k' q m ≡ committed k q m
    pub reserves : (q m : ℕ) → reserved k' q m ≡ reserved k q m

  -- The pages of the range got `prot`, and nothing else changed.
  pub record Protected (p n prot : ℕ) (k k' : Kernel) : Type 0 where
    pub protections :
        (a : ℕ) → protection k' a ≡ (if in_pages win p n a then prot else protection k a)
    pub commits : (q m : ℕ) → committed k' q m ≡ committed k q m
    pub reserves : (q m : ℕ) → reserved k' q m ≡ reserved k q m

  -- The pages of the range all have the first one's protection.
  abbrev pub Uniform : Kernel → (p n : ℕ) → Type 0
  Uniform k p n = (a : ℕ) → in_pages win p n a ≡ true → protection k a ≡ protection k p

  pub Same-refl : (k : Kernel) → Same k k
  Same-refl k = record { protections = λ a. refl; commits = λ q m. refl; reserves = λ q m. refl }

  pub Same-trans : {k k' k'' : Kernel} → Same k k' → Same k' k'' → Same k k''
  Same-trans s t = record {
    protections = λ a. t.protections a ∙ s.protections a;
    commits = λ q m. t.commits q m ∙ s.commits q m;
    reserves = λ q m. t.reserves q m ∙ s.reserves q m;
  }

  pub Same-sym : {k k' : Kernel} → Same k k' → Same k' k
  Same-sym s = record {
    protections = λ a. sym (s.protections a);
    commits = λ q m. sym (s.commits q m);
    reserves = λ q m. sym (s.reserves q m);
  }

  pub Uniform-Same : {k k' : Kernel} (p n : ℕ) → Uniform k p n → Same k k' → Uniform k' p n
  Uniform-Same p n u s a h = s.protections a ∙ u a h ∙ sym (s.protections p)

  -- Where the range has one protection, giving it that protection changes nothing.
  pub Protected-Same :
      {k k' : Kernel} (p n : ℕ) → Uniform k p n → Protected p n (protection k p) k k' → Same k k'
  Protected-Same p n u s = record {
    protections = λ a. ground (arith, u a, s.protections a);
    commits = s.commits;
    reserves = s.reserves;
  }

module _ (win : Windows) (laws : WindowsLaws win) where
  open win use {Kernel, protection, committed}

  pub in_pages-add : (p n i : ℕ) → i < n → in_pages win p n (p + i) ≡ true
  in_pages-add p n i h = ground (
    arith,
    div_mono p (p + i) win.page_size laws.page_size_pos,
    div_mono (p + i) (p + n - 1) win.page_size laws.page_size_pos,
  )

  -- After `scoped_unprotect` the range may be read and written.
  pub Protected-CanRead :
      {k k' : Kernel} (p n : ℕ)
      → Protected win p n win.page_execute_readwrite k k'
      → CanRead (cpu win) k' p n
  Protected-CanRead p n s i h =
      rw (s.protections (p + i), in_pages-add p n i h) laws.execute_readwrite_readable

  pub Protected-CanWrite :
      {k k' : Kernel} (p n : ℕ)
      → Protected win p n win.page_execute_readwrite k k'
      → CanWrite (cpu win) k' p n
  Protected-CanWrite p n s i h =
      rw (s.protections (p + i), in_pages-add p n i h) laws.execute_readwrite_writable

  -- What could be read before can still be read.
  pub Protected-CanRead_other :
      {k k' : Kernel} (p n q m : ℕ)
      → Protected win p n win.page_execute_readwrite k k'
      → CanRead (cpu win) k q m
      → CanRead (cpu win) k' q m
  Protected-CanRead_other p n q m s r i h = elim (Bool-cases (in_pages win p n (q + i))) [
    | inl hit ↦ rw (s.protections (q + i), hit) laws.execute_readwrite_readable
    | inr miss ↦ rw (s.protections (q + i), miss) (r i h)
  ]

  virtual_protect-Protected :
      (p n prot : ℕ) (k : Kernel)
      → committed k p n ≡ true
      → win.valid prot ≡ true
      → Protected win p n prot k (win.virtual_protect p n prot k).1
  virtual_protect-Protected p n prot k c v = record {
    protections = λ a. laws.protect_sets p n prot k a (laws.protect_success p n prot k c v);
    commits = laws.protect_committed p n prot k;
    reserves = laws.protect_reserved p n prot k;
  }

  -- A second protection of the same range replaces the first.
  Protected-again :
      {k k' k'' : Kernel} {prot prot' : ℕ} (p n : ℕ)
      → Protected win p n prot k k'
      → Protected win p n prot' k' k''
      → Protected win p n prot' k k''
  Protected-again p n s t = record {
    protections = λ a. ground (arith, s.protections a, t.protections a);
    commits = λ q m. t.commits q m ∙ s.commits q m;
    reserves = λ q m. t.reserves q m ∙ s.reserves q m;
  }

  Protected-via :
      {k k' k'' : Kernel} {prot : ℕ} (p n : ℕ)
      → Protected win p n prot k k'
      → Same win k' k''
      → Protected win p n prot k k''
  Protected-via p n s t = record {
    protections = λ a. t.protections a ∙ s.protections a;
    commits = λ q m. t.commits q m ∙ s.commits q m;
    reserves = λ q m. t.reserves q m ∙ s.reserves q m;
  }

  -- The destructor of a successful `scoped_unprotect` gives the range the first page's protection.
  pub unprotected-Protected :
      {A : Type 0} (P : A → Bytes → Type 0) (p n : ℕ) (body : M Kernel A) (w : World Kernel)
      → committed w.kernel p n ≡ true
      → ((u : World Kernel)
          → u.bytes ≡ w.bytes
          → Protected win p n win.page_execute_readwrite w.kernel u.kernel
          → Returns (λ a v. P a v.bytes × Same win u.kernel v.kernel) (body u))
      → Returns
          (λ a v. P a v.bytes × Protected win p n (protection w.kernel p) w.kernel v.kernel)
          (unprotected win p n body w)
  unfolding unprotected construct destroy convert_memory_protection_constant good
  unprotected-Protected P p n body w c run =
      Returns.bind (run (record w { kernel = k }) refl opened) λ a v (pa, same).
        let c' : committed v.kernel p n ≡ true = same.commits p n ∙ opened.commits p n ∙ c in
        rw (done, laws.protect_old p n rwx w.kernel done)
          (returns (
            pa,
            Protected-again p n (Protected-via p n opened same) (
                virtual_protect-Protected p n (protection w.kernel p) v.kernel c'
                  (laws.committed_valid p n w.kernel c)),
          ))
    where
      rwx : ℕ
      rwx = win.page_execute_readwrite

      k : Kernel
      k = (win.virtual_protect p n rwx w.kernel).1

      opened : Protected win p n rwx w.kernel k
      opened = virtual_protect-Protected p n rwx w.kernel c laws.execute_readwrite_valid

      done : (win.virtual_protect p n rwx w.kernel).0.0 ≡ true
      done = laws.protect_success p n rwx w.kernel c laws.execute_readwrite_valid

  -- An access violation in the block is one of the whole: the destructor does not run.
  pub unprotected-fault :
      {A : Type 0} (p n : ℕ) (body : M Kernel A) (w : World Kernel)
      → committed w.kernel p n ≡ true
      → ((u : World Kernel)
          → Protected win p n win.page_execute_readwrite w.kernel u.kernel
          → body u ≡ none)
      → unprotected win p n body w ≡ none
  unfolding unprotected construct destroy convert_memory_protection_constant good
  unprotected-fault p n body w c run = rw (
      run (record w { kernel = (win.virtual_protect p n win.page_execute_readwrite w.kernel).1 })
        (virtual_protect-Protected p n win.page_execute_readwrite w.kernel c
          laws.execute_readwrite_valid))
