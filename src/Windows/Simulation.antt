-- ===== src/Windows/Simulation.antt =====
-- A small operating system that obeys the laws, for the tests: pages of 4096 bytes with a
-- protection each, committed below 2 ^ 30; regions from 2 ^ 30 on that are allocated one behind the
-- other, and whose pages stay as they are when they are released; and one module.
use memwrapper.Base.{
  ◌<◌, ◌≡◌, ◌≢◌, within, ℕ, ◌+◌, ◌-◌, ◌*◌, ◌/◌, ◌^◌, refl, Bool, true, false, ◌&&◌, ◌||◌, none,
  some, arith, leb, ltb, ◌==◌, if◌then◌else◌,
}
use memwrapper.Machine.{Bytes}
use memwrapper.Windows.{Windows, WindowsLaws, in_pages}

-- The protections of the pages, and how many pages are allocated.
pub record Pages : Type 0 where
  pub protections : ℕ → ℕ
  pub allocated : ℕ

abbrev heap : ℕ
heap = 2 ^ 30

-- Where the allocated pages end.
abbrev top : Pages → ℕ
top k = heap + 4096 * k.allocated

abbrev is_committed : Pages → (p n : ℕ) → Bool
is_committed k p n = ltb 0 n && (leb (p + n) heap || (leb heap p && leb (p + n) (top k)))

abbrev can_allocate : Pages → ℕ → Bool
can_allocate k n = leb k.allocated (2 ^ 16) && ltb 0 n && leb n (2 ^ 28)

abbrev covers : (p n page : ℕ) → Bool
covers p n page = leb (p / 4096) page && leb page ((p + n - 1) / 4096)

abbrev pub simulation : Windows
simulation = record {
  Kernel = Pages;
  page_size = 4096;
  page_noaccess = 1;
  page_readonly = 2;
  page_readwrite = 4;
  page_writecopy = 8;
  page_execute = 0x10;
  page_execute_read = 0x20;
  page_execute_readwrite = 0x40;
  page_execute_writecopy = 0x80;
  mem_commit = 0x1000;
  instance_size = 4;
  image_nt_signature = 0x4550;
  e_lfanew = 0x3c;
  signature = 0;
  size_of_image = 0x50;
  protection = λ k a. k.protections (a / 4096);
  committed = is_committed;
  reserved = λ k p n. leb heap p && ltb 0 n;
  readable = λ prot. (prot == 2) || (prot == 4) || (prot == 0x20) || (prot == 0x40);
  writable = λ prot. (prot == 4) || (prot == 0x40);
  valid = λ prot. true;
  virtual_protect = λ p n prot k.
      if is_committed k p n
      then (
        (true, k.protections (p / 4096)),
        record k { protections = λ page. if covers p n page then prot else k.protections page },
      )
      else ((false, 0), k);
  virtual_alloc = λ n f k.
      if can_allocate k n
      then (
        (top k, λ a. if within (top k) n a then 0 else f a),
        record {
          protections = λ page. if covers (top k) n page then 0x40 else k.protections page;
          allocated = k.allocated + (n + 4095) / 4096;
        },
      )
      else ((0, f), k);
  virtual_free = λ p k. (true, k);
  flush_instruction_cache = λ p n k. (true, k);
  virtual_query = λ a k.
      if ltb a (2 ^ 31)
      then some (record {
        allocation_base = a / 65536 * 65536;
        state = 0x1000;
        protect = k.protections (a / 4096);
      })
      else none;
  get_module_handle = λ f name k. if f name == 0 then 0x10000 else 0;
}

alloc_protects :
    (n : ℕ) (f : Bytes) (k : Pages) (i : ℕ)
    → (simulation.virtual_alloc n f k).0.0 ≢ 0
    → i < n
    → simulation.protection
        (simulation.virtual_alloc n f k).1
        ((simulation.virtual_alloc n f k).0.0 + i)
      ≡ 0x40
alloc_protects n f k i ok lt = ground arith

alloc_keeps_pages :
    (n : ℕ) (f : Bytes) (k : Pages) (q m a : ℕ)
    → simulation.committed k q m ≡ true
    → in_pages simulation q m a ≡ true
    → simulation.protection (simulation.virtual_alloc n f k).1 a ≡ simulation.protection k a
alloc_keeps_pages n f k q m a c i = ground arith

pub simulation-laws : WindowsLaws simulation
simulation-laws = record {
  page_size_pos = omega arith;
  page_size_x86 = refl;
  committed_part = λ p n q m k c lo hi pos. ground arith;
  instance_size_int = refl;
  protect_success = λ p n prot k c v. ground arith;
  protect_failure = λ p n prot k c. ground arith;
  protect_old = λ p n prot k h. ground arith;
  protect_sets = λ p n prot k a h. ground arith;
  protect_keeps = λ p n prot k a h. ground arith;
  protect_committed = λ p n prot k q m. ground arith;
  alloc_protection = λ n f k i ok lt. alloc_protects n f k i ok lt;
  alloc_committed = λ n f k ok. ground arith;
  alloc_bytes = λ n f k a ok. ground arith;
  alloc_apart = λ n f k q m ok c. ground arith;
  alloc_keeps = alloc_keeps_pages;
  alloc_keeps_committed = λ n f k q m c. ground arith;
  alloc_reserved = λ n f k ok. ground arith;
  alloc_keeps_reserved = λ n f k q m r. r;
  protect_reserved = λ p n prot k q m. refl;
  flush_reserved = λ p n k q m. refl;
  free_keeps = λ p n k q m a r z c apart i. refl;
  free_keeps_committed = λ p n k q m r z c apart. c;
  free_keeps_reserved = λ p k q m r ne. r;
  alloc_aligned = λ n f k ok. ground arith;
  alloc_in_space = λ n f k ok. ground arith;
  flush_protection = λ p n k a. refl;
  flush_committed = λ p n k q m. refl;
  committed_valid = λ p n k c. refl;
  execute_readwrite_valid = refl;
  execute_readwrite_readable = refl;
  execute_readwrite_writable = refl;
}
