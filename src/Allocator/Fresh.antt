-- ===== src/Allocator/Fresh.antt =====
-- A new allocator: the constructor's region, and what it leaves alone.
use memwrapper.Base.{
  ℕ, ◌+◌, ◌-◌, ◌/◌, ◌%◌, ◌&&◌, leb, ◌≤◌, ◌<◌, ◌≡◌, ◌≢◌, sym, ap, ◌∙◌, fun_ext, true, some, arith,
  word_mod, Apart, within, if◌then◌else◌,
}
use mathlib.Core.Path.{subst, ap₂}
use memwrapper.Machine.{Bytes, World}
use memwrapper.Windows.{Windows, WindowsLaws, in_pages}
use memwrapper.Detail.{align_value}
use memwrapper.Allocator.{BasicAllocator, page_size_4kb, construct}
use memwrapper.Llmo.Operations.Kept.{IsOpen}
use memwrapper.Allocator.Appends.{HasRoom}

-- The bytes of memory when a region of zeros has been added.
abbrev pub with_zeros : Bytes → (code n : ℕ) → Bytes
with_zeros f code n a = if within code n a then 0 else f a

-- The cursor at the head of a region of one page.
abbrev pub page_at : (code : ℕ) → BasicAllocator
page_at code = record { code = code; size = 4096; offset = 0 }

module _ (win : Windows) where
  open win use {Kernel}

  -- VirtualAlloc finds a page at `code`.
  pub record Allocates (w : World Kernel) (code : ℕ) : Type 0 where
    pub address : (win.virtual_alloc 4096 w.bytes w.kernel).0.0 ≡ code
    pub nonzero : code ≢ 0

  abbrev pub grown : World Kernel → Kernel
  grown w = (win.virtual_alloc 4096 w.bytes w.kernel).1

within_page :
    (p a : ℕ)
    → p % 4096 ≡ 0
    → (leb (p / 4096) (a / 4096) && leb (a / 4096) ((p + 4096 - 1) / 4096)) ≡ true
    → within p 4096 a ≡ true
within_page p a aligned h = ground arith

module _ (win : Windows) (laws : WindowsLaws win) (w : World win.Kernel) (code : ℕ)
    (new : Allocates win w code) where
  open win use {Kernel, committed}

  found : (win.virtual_alloc 4096 w.bytes w.kernel).0.0 ≢ 0
  found z = new.nonzero (sym new.address ∙ z)

  zeros : (win.virtual_alloc 4096 w.bytes w.kernel).0.1 ≡ with_zeros w.bytes code 4096
  zeros = fun_ext λ a.
      laws.alloc_bytes 4096 w.bytes w.kernel a found
      ∙ ap (λ p. if within p 4096 a then 0 else w.bytes a) new.address

  -- The constructor with the default size makes an empty allocator over a new page of zeros.
  pub construct-page_at :
      construct win page_size_4kb w
      ≡ some (page_at code, record { bytes = with_zeros w.bytes code 4096; kernel = grown win w })
  unfolding construct align_value
  construct-page_at =
      rw (laws.page_size_x86, new.address)
        (ap (λ f. some (page_at code, record { bytes = f; kernel = grown win w })) zeros)

  -- Its region may be written.
  pub page_at-HasRoom : (n : ℕ) → n ≤ 4096 → HasRoom win (grown win w) (page_at code) n
  page_at-HasRoom n le = record {
    valid = record { in_region = omega arith; word = omega arith };
    room = omega arith;
    writable = λ i lt.
        ap win.writable (
          ap (λ p. win.protection (grown win w) (p + i)) (sym new.address)
          ∙ laws.alloc_protection 4096 w.bytes w.kernel i found lt)
        ∙ laws.execute_readwrite_writable;
  }

  -- The page does not meet what was committed, and ends before the address space does.
  pub page-Apart : (q m : ℕ) → committed w.kernel q m ≡ true → Apart code 4096 q m
  page-Apart q m c =
      subst (λ p. Apart p 4096 q m) new.address (laws.alloc_apart 4096 w.bytes w.kernel q m found c)

  pub page_in_space : code + 4096 < word_mod
  page_in_space =
      subst (λ p. p + 4096 < word_mod) new.address (laws.alloc_in_space 4096 w.bytes w.kernel found)

  -- The page is committed, and has one protection.
  pub page-IsOpen : IsOpen win (grown win w) code 4096
  page-IsOpen = record {
    commit =
        subst (λ p. committed (grown win w) p 4096 ≡ true) new.address
          (laws.alloc_committed 4096 w.bytes w.kernel found);
    uniform = λ a i. one_protection a (on_page a i) ∙ sym (one_protection code (ground arith));
  }
    where
      aligned : code % 4096 ≡ 0
      aligned =
          ap₂ ◌%◌ (sym new.address) (sym laws.page_size_x86)
          ∙ laws.alloc_aligned 4096 w.bytes w.kernel found

      on_page : (a : ℕ) → in_pages win code 4096 a ≡ true → within code 4096 a ≡ true
      on_page a i = within_page code a aligned (
          subst
            (λ size.
              (leb (code / size) (a / size) && leb (a / size) ((code + 4096 - 1) / size)) ≡ true)
            laws.page_size_x86 i)

      one_protection :
          (a : ℕ)
          → within code 4096 a ≡ true
          → win.protection (grown win w) a ≡ win.page_execute_readwrite
      one_protection a i =
          ap (win.protection (grown win w))
            (ground (arith, i) ∙ ap (λ p. p + (a - code)) (sym new.address))
          ∙ laws.alloc_protection 4096 w.bytes w.kernel (a - code) found (ground arith)
