-- ===== src/Llmo/Operations/Open.antt =====
-- Ranges that are open stay so in part, and when a region is allocated or released.
use memwrapper.Base.{ℕ, ◌+◌, ◌-◌, ◌≤◌, ◌<◌, ◌≡◌, sym, ap, ◌∙◌, true, arith, Apart, refl, ◌%◌}
use memwrapper.Machine.{Bytes}
use memwrapper.Machine.Run.{CanRead}
use memwrapper.Windows.{Windows, WindowsLaws, cpu, in_pages}
use memwrapper.Llmo.Unprotect.Scope.{div_mono, in_pages-add}
use memwrapper.Llmo.Operations.Kept.{IsOpen}

module _ (win : Windows) (laws : WindowsLaws win) where
  open win use {Kernel, committed, protection, page_size}

  in_pages-part :
      (p n q m a : ℕ)
      → p ≤ q
      → q + m ≤ p + n
      → in_pages win q m a ≡ true
      → in_pages win p n a ≡ true
  in_pages-part p n q m a lo hi h = ground (
    arith,
    div_mono p q page_size laws.page_size_pos lo,
    div_mono (q + m - 1) (p + n - 1) page_size laws.page_size_pos (omega arith),
  )

  pub first_page : (p n : ℕ) → 0 < n → in_pages win p n p ≡ true
  first_page p n h = ap (in_pages win p n) (omega arith) ∙ in_pages-add win laws p n 0 h

  pub IsOpen-part :
      {k : Kernel} (p n q m : ℕ)
      → IsOpen win k p n
      → p ≤ q
      → q + m ≤ p + n
      → 0 < m
      → IsOpen win k q m
  IsOpen-part {k} p n q m o lo hi pos = record {
    commit = laws.committed_part p n q m k o.commit lo hi pos;
    uniform = λ a h.
        o.uniform a (in_pages-part p n q m a lo hi h)
        ∙ sym (o.uniform q (in_pages-part p n q m q lo hi (first_page q m pos)));
  }

  -- After an allocation, what was committed is as it was.
  pub IsOpen-alloc :
      {k : Kernel} (size : ℕ) (f : Bytes) (p n : ℕ)
      → 0 < n
      → IsOpen win k p n
      → IsOpen win (win.virtual_alloc size f k).1 p n
  IsOpen-alloc {k} size f p n pos o = record {
    commit = laws.alloc_keeps_committed size f k p n o.commit;
    uniform = λ a h.
        laws.alloc_keeps size f k p n a o.commit h
        ∙ o.uniform a h
        ∙ sym (laws.alloc_keeps size f k p n p o.commit (first_page p n pos));
  }

  pub CanRead-alloc :
      {k : Kernel} (size : ℕ) (f : Bytes) (p n : ℕ)
      → committed k p n ≡ true
      → CanRead (cpu win) k p n
      → CanRead (cpu win) (win.virtual_alloc size f k).1 p n
  CanRead-alloc {k} size f p n c r i lt =
      ap win.readable (laws.alloc_keeps size f k p n (p + i) c (in_pages-add win laws p n i lt))
      ∙ r i lt

  -- It is enough that a longer range is committed.
  pub CanRead-alloc_within :
      {k : Kernel} (size : ℕ) (f : Bytes) (p n m : ℕ)
      → committed k p m ≡ true
      → n ≤ m
      → CanRead (cpu win) k p n
      → CanRead (cpu win) (win.virtual_alloc size f k).1 p n
  CanRead-alloc_within {k} size f p n m c le r i lt =
      ap win.readable (
        laws.alloc_keeps size f k p m (p + i) c
          (in_pages-add win laws p m i (omega (arith, lt, le))))
      ∙ r i lt

  -- When a page is released, what does not meet it is as it was.
  module _ (p : ℕ) {k : Kernel} (own : win.reserved k p 4096 ≡ true) where
    one_page : 4096 % page_size ≡ 0
    one_page = rw laws.page_size_x86 refl

    pub committed-free :
        (q m : ℕ)
        → Apart p 4096 q m
        → committed k q m ≡ true
        → committed (win.virtual_free p k).1 q m ≡ true
    committed-free q m apart c = laws.free_keeps_committed p 4096 k q m own one_page c apart

    pub IsOpen-free :
        (q m : ℕ)
        → 0 < m
        → Apart p 4096 q m
        → IsOpen win k q m
        → IsOpen win (win.virtual_free p k).1 q m
    IsOpen-free q m pos apart o = record {
      commit = committed-free q m apart o.commit;
      uniform = λ a h.
          laws.free_keeps p 4096 k q m a own one_page o.commit apart h
          ∙ o.uniform a h
          ∙ sym (laws.free_keeps p 4096 k q m q own one_page o.commit apart (first_page q m pos));
    }

    pub protection-free :
        (q m i : ℕ)
        → Apart p 4096 q m
        → committed k q m ≡ true
        → i < m
        → protection (win.virtual_free p k).1 (q + i) ≡ protection k (q + i)
    protection-free q m i apart c lt =
        laws.free_keeps p 4096 k q m (q + i) own one_page c apart (in_pages-add win laws q m i lt)
