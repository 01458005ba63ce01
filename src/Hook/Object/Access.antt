-- ===== src/Hook/Object/Access.antt =====
-- What an installed hook may access.
use memwrapper.Base.{ℕ, ◌+◌, ◌≤◌, ◌≡◌, ap, ◌∙◌, sym, true, arith, Apart, ◌≢◌}
use mathlib.Core.Path.{subst}
use memwrapper.Machine.{Bytes, World}
use memwrapper.Machine.Run.{CanRead, CanWrite}
use memwrapper.Windows.{Windows, WindowsLaws, cpu}
use memwrapper.Llmo.Unprotect.Scope.{Same, in_pages-add}
use memwrapper.Llmo.Operations.Kept.{IsOpen, IsOpen-Same, CanRead-Same}
use memwrapper.Llmo.Operations.Open.{
  IsOpen-alloc, CanRead-alloc, IsOpen-free, committed-free, protection-free,
}
use memwrapper.Allocator.Fresh.{grown, page_at-HasRoom, page-IsOpen}
use memwrapper.Hook.Object.{Memhook, jump_size}
use memwrapper.Hook.Object.Saved.{Installable, cleared}

module _ (win : Windows) where
  open win use {Kernel, committed}

  -- The hooked function and the trampoline's page are open, the one may be read, the page may be written, and the saved
  -- bytes may be read; and the page is a region of its own.
  pub record Accessible (storage code : ℕ) (h : Memhook) (k : Kernel) : Type 0 where
    pub target : IsOpen win k h.hookee h.size
    pub target_read : CanRead (cpu win) k h.hookee h.size
    pub saved : committed k storage h.size ≡ true
    pub saved_read : CanRead (cpu win) k storage h.size
    pub page : IsOpen win k code 4096
    pub page_write : CanWrite (cpu win) k code 4096
    pub region : win.reserved k code 4096 ≡ true

  pub Accessible-Same :
      {k k' : Kernel} (storage code : ℕ) (h : Memhook)
      → Accessible storage code h k
      → Same win k k'
      → Accessible storage code h k'
  Accessible-Same storage code h a s = record {
    target = IsOpen-Same win h.hookee h.size a.target s;
    target_read = CanRead-Same win h.hookee h.size a.target_read s;
    saved = s.commits storage h.size ∙ a.saved;
    saved_read = CanRead-Same win storage h.size a.saved_read s;
    page = IsOpen-Same win code 4096 a.page s;
    page_write = λ i lt. ap win.writable (s.protections (code + i)) ∙ a.page_write i lt;
    region = s.reserves code 4096 ∙ a.region;
  }

  -- The kernel when a region has been released, and what is left as in `k` otherwise.
  abbrev pub Released : (code : ℕ) (k k' : Kernel) → Type 0
  Released code k k' = (k₁ : Kernel) × Same win k k₁ × (k' ≡ (win.virtual_free code k₁).1)

module _ (win : Windows) (laws : WindowsLaws win) where
  open win use {Kernel}

  -- An allocation leaves it so.
  pub Accessible-alloc :
      {k : Kernel} (storage code : ℕ) (h : Memhook) (size : ℕ) (f : Bytes)
      → jump_size ≤ h.size
      → Accessible win storage code h k
      → Accessible win storage code h (win.virtual_alloc size f k).1
  Accessible-alloc {k} storage code h size f le a = record {
    target = IsOpen-alloc win laws size f h.hookee h.size (omega (arith, le)) a.target;
    target_read = CanRead-alloc win laws size f h.hookee h.size a.target.commit a.target_read;
    saved = laws.alloc_keeps_committed size f k storage h.size a.saved;
    saved_read = CanRead-alloc win laws size f storage h.size a.saved a.saved_read;
    page = IsOpen-alloc win laws size f code 4096 (omega arith) a.page;
    page_write = λ i lt.
        ap win.writable (
          laws.alloc_keeps size f k code 4096 (code + i) a.page.commit
            (in_pages-add win laws code 4096 i lt))
        ∙ a.page_write i lt;
    region = laws.alloc_keeps_reserved size f k code 4096 a.region;
  }

  -- The allocation of an installation makes it so.
  pub installed-Accessible :
      (storage code : ℕ) (h : Memhook) (w : World Kernel)
      → Installable win storage code h w
      → Accessible win storage code h (grown win (cleared storage h.size w))
  installed-Accessible storage code h w can = record {
    target = IsOpen-alloc win laws 4096 _ h.hookee h.size (omega (arith, can.enough)) can.target;
    target_read =
        CanRead-alloc win laws 4096 _ h.hookee h.size can.target.commit
          (λ i lt. can.target_read i (omega (arith, lt)));
    saved = laws.alloc_keeps_committed 4096 _ w.kernel storage h.size can.store.commit;
    saved_read = CanRead-alloc win laws 4096 _ storage h.size can.store.commit can.store_read;
    page = page-IsOpen win laws (cleared storage h.size w) code can.new;
    page_write =
        (page_at-HasRoom win laws (cleared storage h.size w) code can.new 4096
          (omega arith)).writable;
    region =
        subst (λ p. win.reserved (grown win (cleared storage h.size w)) p 4096 ≡ true)
          can.new.address
          (laws.alloc_reserved 4096 _ w.kernel (λ z. can.new.nonzero (sym can.new.address ∙ z)));
  }

  -- So does the release of a page that does not meet what the hook accesses.
  pub Accessible-Released :
      {k k' : Kernel} (storage code : ℕ) (h : Memhook) (p : ℕ)
      → jump_size ≤ h.size
      → win.reserved k p 4096 ≡ true
      → Apart p 4096 h.hookee h.size
      → Apart p 4096 storage h.size
      → p ≢ code
      → Apart p 4096 code 4096
      → Released win p k k'
      → Accessible win storage code h k
      → Accessible win storage code h k'
  Accessible-Released {k} {k'} storage code h p le own x y other z (k₁, s, e) a =
      let own₁ : win.reserved k₁ p 4096 ≡ true = s.reserves p 4096 ∙ own in
      let a₁ : Accessible win storage code h k₁ = Accessible-Same win storage code h a s in
      rw e (record {
        target = IsOpen-free win laws p own₁ h.hookee h.size (omega (arith, le)) x a₁.target;
        target_read = λ i lt.
            ap win.readable
              (protection-free win laws p own₁ h.hookee h.size i x a₁.target.commit lt)
            ∙ a₁.target_read i lt;
        saved = committed-free win laws p own₁ storage h.size y a₁.saved;
        saved_read = λ i lt.
            ap win.readable (protection-free win laws p own₁ storage h.size i y a₁.saved lt)
            ∙ a₁.saved_read i lt;
        page = IsOpen-free win laws p own₁ code 4096 (omega arith) z a₁.page;
        page_write = λ i lt.
            ap win.writable (protection-free win laws p own₁ code 4096 i z a₁.page.commit lt)
            ∙ a₁.page_write i lt;
        region = laws.free_keeps_reserved p k₁ code 4096 a₁.region (λ c. other (sym c));
      })
