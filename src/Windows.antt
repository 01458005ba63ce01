-- ===== src/Windows.antt =====
-- The Windows functions that the library calls, as a parameter: an interface of operations, and
-- the documented behaviour that the theorems rely on, as a record of laws. The constants of
-- Windows.h are fields of the interface too.
pub mod Simulation
use memwrapper.Base.{
  Apart, ℕ, ◌+◌, ◌-◌, ◌/◌, ◌%◌, ◌≤◌, ◌<◌, ◌≡◌, ◌≢◌, Bool, true, false, ◌&&◌, Option, none, some,
  leb, within, if◌then◌else◌, word_mod,
}
use memwrapper.Machine.{Bytes, World, Access}

-- The fields of MEMORY_BASIC_INFORMATION that the library reads.
pub record MemoryBasicInformation : Type 0 where
  pub allocation_base : ℕ
  pub state : ℕ
  pub protect : ℕ

-- `mbi{ 0 }`
abbrev pub zero_information : MemoryBasicInformation
zero_information = record { allocation_base = 0; state = 0; protect = 0 }

pub record Windows : Type 1 where
  pub Kernel : Type 0
  -- SYSTEM_INFO::dwPageSize
  pub page_size : ℕ
  pub page_noaccess : ℕ
  pub page_readonly : ℕ
  pub page_readwrite : ℕ
  pub page_writecopy : ℕ
  pub page_execute : ℕ
  pub page_execute_read : ℕ
  pub page_execute_readwrite : ℕ
  pub page_execute_writecopy : ℕ
  pub mem_commit : ℕ
  -- sizeof(HINSTANCE__): what pointer arithmetic on a module handle is scaled by.
  pub instance_size : ℕ
  pub image_nt_signature : ℕ
  -- Where IMAGE_DOS_HEADER::e_lfanew, IMAGE_NT_HEADERS::Signature and
  -- IMAGE_NT_HEADERS::OptionalHeader.SizeOfImage stand in their structures.
  pub e_lfanew : ℕ
  pub signature : ℕ
  pub size_of_image : ℕ
  -- What may be observed of the kernel: the protection of the page of an address, whether every
  -- page of a range is committed, which regions are reserved, and what a protection constant allows.
  pub protection : Kernel → ℕ → ℕ
  pub committed : Kernel → ℕ → ℕ → Bool
  -- A region of that size was reserved at the address and has not been released.
  pub reserved : Kernel → ℕ → ℕ → Bool
  pub readable : ℕ → Bool
  pub writable : ℕ → Bool
  pub valid : ℕ → Bool
  -- Address, size and new protection; the result, and what `lpflOldProtect` points at.
  pub virtual_protect : ℕ → ℕ → ℕ → Kernel → (Bool × ℕ) × Kernel
  pub flush_instruction_cache : ℕ → ℕ → Kernel → Bool × Kernel
  -- Size of a new region (MEM_COMMIT | MEM_RESERVE, PAGE_EXECUTE_READWRITE); its address or 0, and
  -- the bytes of memory, since a new region holds zeros.
  pub virtual_alloc : ℕ → Bytes → Kernel → (ℕ × Bytes) × Kernel
  -- Address of a region (MEM_RELEASE).
  pub virtual_free : ℕ → Kernel → Bool × Kernel
  -- `none` if the function fails.
  pub virtual_query : ℕ → Kernel → Option MemoryBasicInformation
  -- The module's name is text in memory; the base address, or 0.
  pub get_module_handle : Bytes → ℕ → Kernel → ℕ

module _ (win : Windows) where
  open win use {Kernel, page_size, protection, readable, writable}

  abbrev pub cpu : Access Kernel
  cpu = record {
    can_read = λ k a. readable (protection k a);
    can_write = λ k a. writable (protection k a);
  }

  -- The address lies on a page that holds a byte of the range.
  abbrev pub in_pages : (p n a : ℕ) → Bool
  in_pages p n a =
      leb (p / page_size) (a / page_size) && leb (a / page_size) ((p + n - 1) / page_size)

-- What the documentation of these functions says.
pub record WindowsLaws (win : Windows) : Type 0 where
  pub page_size_pos : 0 < win.page_size
  -- On the x86 a page has 4 KB.
  pub page_size_x86 : win.page_size ≡ 4096
  -- A range is committed if all its pages are, and so is each part of it.
  pub committed_part :
      (p n q m : ℕ) (k : win.Kernel)
      → win.committed k p n ≡ true
      → p ≤ q
      → q + m ≤ p + n
      → 0 < m
      → win.committed k q m ≡ true
  -- `struct HINSTANCE__ { int unused; }`
  pub instance_size_int : win.instance_size ≡ 4
  pub protect_success :
      (p n prot : ℕ) (k : win.Kernel)
      → win.committed k p n ≡ true
      → win.valid prot ≡ true
      → (win.virtual_protect p n prot k).0.0 ≡ true
  pub protect_failure :
      (p n prot : ℕ) (k : win.Kernel)
      → win.committed k p n ≡ false
      → (win.virtual_protect p n prot k).0.0 ≡ false
  -- The previous protection of the first page of the range.
  pub protect_old :
      (p n prot : ℕ) (k : win.Kernel)
      → (win.virtual_protect p n prot k).0.0 ≡ true
      → (win.virtual_protect p n prot k).0.1 ≡ win.protection k p
  pub protect_sets :
      (p n prot : ℕ) (k : win.Kernel) (a : ℕ)
      → (win.virtual_protect p n prot k).0.0 ≡ true
      → win.protection (win.virtual_protect p n prot k).1 a
        ≡ (if in_pages win p n a then prot else win.protection k a)
  pub protect_keeps :
      (p n prot : ℕ) (k : win.Kernel) (a : ℕ)
      → (win.virtual_protect p n prot k).0.0 ≡ false
      → win.protection (win.virtual_protect p n prot k).1 a ≡ win.protection k a
  pub protect_committed :
      (p n prot : ℕ) (k : win.Kernel) (q m : ℕ)
      → win.committed (win.virtual_protect p n prot k).1 q m ≡ win.committed k q m
  pub flush_protection :
      (p n : ℕ) (k : win.Kernel) (a : ℕ)
      → win.protection (win.flush_instruction_cache p n k).1 a ≡ win.protection k a
  pub flush_committed :
      (p n : ℕ) (k : win.Kernel) (q m : ℕ)
      → win.committed (win.flush_instruction_cache p n k).1 q m ≡ win.committed k q m
  -- A new region is committed, may be executed, read and written, and does not meet what was
  -- committed; its bytes are zero, and no others change.
  pub alloc_protection :
      (n : ℕ) (f : Bytes) (k : win.Kernel) (i : ℕ)
      → (win.virtual_alloc n f k).0.0 ≢ 0
      → i < n
      → win.protection (win.virtual_alloc n f k).1 ((win.virtual_alloc n f k).0.0 + i)
        ≡ win.page_execute_readwrite
  pub alloc_committed :
      (n : ℕ) (f : Bytes) (k : win.Kernel)
      → (win.virtual_alloc n f k).0.0 ≢ 0
      → win.committed (win.virtual_alloc n f k).1 (win.virtual_alloc n f k).0.0 n ≡ true
  pub alloc_bytes :
      (n : ℕ) (f : Bytes) (k : win.Kernel) (a : ℕ)
      → (win.virtual_alloc n f k).0.0 ≢ 0
      → (win.virtual_alloc n f k).0.1 a
        ≡ (if within (win.virtual_alloc n f k).0.0 n a then 0 else f a)
  pub alloc_apart :
      (n : ℕ) (f : Bytes) (k : win.Kernel) (q m : ℕ)
      → (win.virtual_alloc n f k).0.0 ≢ 0
      → win.committed k q m ≡ true
      → Apart (win.virtual_alloc n f k).0.0 n q m
  -- What was committed stays so, with its protections.
  pub alloc_keeps :
      (n : ℕ) (f : Bytes) (k : win.Kernel) (q m a : ℕ)
      → win.committed k q m ≡ true
      → in_pages win q m a ≡ true
      → win.protection (win.virtual_alloc n f k).1 a ≡ win.protection k a
  pub alloc_keeps_committed :
      (n : ℕ) (f : Bytes) (k : win.Kernel) (q m : ℕ)
      → win.committed k q m ≡ true
      → win.committed (win.virtual_alloc n f k).1 q m ≡ true
  -- It is reserved, and those that were stay so.
  pub alloc_reserved :
      (n : ℕ) (f : Bytes) (k : win.Kernel)
      → (win.virtual_alloc n f k).0.0 ≢ 0
      → win.reserved (win.virtual_alloc n f k).1 (win.virtual_alloc n f k).0.0 n ≡ true
  pub alloc_keeps_reserved :
      (n : ℕ) (f : Bytes) (k : win.Kernel) (q m : ℕ)
      → win.reserved k q m ≡ true
      → win.reserved (win.virtual_alloc n f k).1 q m ≡ true
  -- Neither a new protection nor a flush reserves or releases a region.
  pub protect_reserved :
      (p n prot : ℕ) (k : win.Kernel) (q m : ℕ)
      → win.reserved (win.virtual_protect p n prot k).1 q m ≡ win.reserved k q m
  pub flush_reserved :
      (p n : ℕ) (k : win.Kernel) (q m : ℕ)
      → win.reserved (win.flush_instruction_cache p n k).1 q m ≡ win.reserved k q m
  -- Releasing a region of whole pages leaves what does not meet it, and the other regions.
  pub free_keeps :
      (p n : ℕ) (k : win.Kernel) (q m a : ℕ)
      → win.reserved k p n ≡ true
      → n % win.page_size ≡ 0
      → win.committed k q m ≡ true
      → Apart p n q m
      → in_pages win q m a ≡ true
      → win.protection (win.virtual_free p k).1 a ≡ win.protection k a
  pub free_keeps_committed :
      (p n : ℕ) (k : win.Kernel) (q m : ℕ)
      → win.reserved k p n ≡ true
      → n % win.page_size ≡ 0
      → win.committed k q m ≡ true
      → Apart p n q m
      → win.committed (win.virtual_free p k).1 q m ≡ true
  pub free_keeps_reserved :
      (p : ℕ) (k : win.Kernel) (q m : ℕ)
      → win.reserved k q m ≡ true
      → q ≢ p
      → win.reserved (win.virtual_free p k).1 q m ≡ true
  -- A region begins with a page.
  pub alloc_aligned :
      (n : ℕ) (f : Bytes) (k : win.Kernel)
      → (win.virtual_alloc n f k).0.0 ≢ 0
      → (win.virtual_alloc n f k).0.0 % win.page_size ≡ 0
  -- A region lies in the address space.
  pub alloc_in_space :
      (n : ℕ) (f : Bytes) (k : win.Kernel)
      → (win.virtual_alloc n f k).0.0 ≢ 0
      → (win.virtual_alloc n f k).0.0 + n < word_mod
  -- The protection of a committed page is one that may be set.
  pub committed_valid :
      (p n : ℕ) (k : win.Kernel)
      → win.committed k p n ≡ true
      → win.valid (win.protection k p) ≡ true
  pub execute_readwrite_valid : win.valid win.page_execute_readwrite ≡ true
  pub execute_readwrite_readable : win.readable win.page_execute_readwrite ≡ true
  pub execute_readwrite_writable : win.writable win.page_execute_readwrite ≡ true
