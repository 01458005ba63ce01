-- ===== src/Llmo/Search.antt =====
-- search_memory_pattern of memwrapper/x86/memwrapper_llmo.hpp. A std::string_view is a range of
-- memory: its characters are read where they stand, and an index is not tested against the size.
-- A read of memory that may not be read faults.
pub mod First
use memwrapper.Base.{ℕ, zero, suc, ◌+◌, add32, leb, ◌==◌, if◌then◌else◌, none, some, not}
use memwrapper.Machine.{M, World, pure, ◌>>=◌, load, read_bytes}
use memwrapper.Windows.{Windows, cpu}
use memwrapper.Detail.Bytes.{number}

pub record StringView : Type 0 where
  pub start : ℕ
  pub size : ℕ

-- The mask's character for a byte that may be anything.
abbrev pub any_byte : ℕ
any_byte = b'?'

module _ (win : Windows) where
  open win use {Kernel}

  -- A field of 32 bits of a structure in memory.
  unfoldable pub load_word : (at : ℕ) → M Kernel ℕ
  load_word at = do bs ← read_bytes (cpu win) at 4; pure (number bs)

  -- `view[i]`
  abbrev pub char_at : StringView → (i : ℕ) → M Kernel ℕ
  char_at view i = load (cpu win) (view.start + i)

  -- The `for` loop from `i` on, with the rounds that are left: the value of `i` when it ends.
  unfoldable pub compare_from : (pattern mask : StringView) (now end : ℕ) (left i : ℕ) → M Kernel ℕ
  compare_from pattern mask now end zero i = pure i
  compare_from pattern mask now end (suc left) i =
      let continue = compare_from pattern mask now end left (i + 1) in
      if leb end (now + i) then pure i else (do
        character ← char_at mask i
        byte ← char_at pattern i
        if character == any_byte
            then continue
            else (do b ← load (cpu win) (now + i); if b == byte then continue else pure i))

  -- The `while` loop from `now` on, with the bytes that are left before `end`.
  unfoldable pub search_from : (pattern mask : StringView) (left now : ℕ) → M Kernel ℕ
  search_from pattern mask zero now = pure 0
  search_from pattern mask (suc left) now =
      let continue = search_from pattern mask left (now + 1) in
      (do
        i ← compare_from pattern mask now (now + suc left) mask.size 0
        c ← char_at mask i
        if c == 0 then pure now else continue)

  -- The module is searched from its allocation base on, for as many bytes as its header says.
  unfoldable pub search_module : (pattern mask : StringView) (base : ℕ) → M Kernel ℕ
  search_module pattern mask base = do
    e_lfanew ← load_word (base + win.e_lfanew)
    let pe = add32 base e_lfanew
    s ← load_word (pe + win.signature)
    if not (s == win.image_nt_signature)
        then pure 0
        else (do size ← load_word (pe + win.size_of_image); search_from pattern mask size base)

  unfoldable pub search_memory_pattern : (mod_name : ℕ) (pattern mask : StringView) → M Kernel ℕ
  search_memory_pattern mod_name pattern mask w =
      let handle = win.get_module_handle w.bytes mod_name w.kernel in
      if handle == 0 then pure 0 w else elim (win.virtual_query handle w.kernel) [
        | none ↦ pure 0 w
        | some mbi ↦ search_module pattern mask mbi.allocation_base w
      ]
