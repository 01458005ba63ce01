-- ===== src/Hook/Object.antt =====
-- The object memhook: its constructor, install, remove, call and destructor.
pub mod Reads
pub mod Head
pub mod Entry
pub mod Leads
pub mod Enters
pub mod Patched
pub mod Saved
pub mod Written
pub mod Placed
pub mod Installed
pub mod Constructed
pub mod Redirected
pub mod Access
pub mod Restored
pub mod Cycle
pub mod Lifecycle
pub mod Chained
pub mod Phases
use memwrapper.Base.{
  ℕ, zero, suc, ◌+◌, ◌-◌, Bool, true, false, ◌&&◌, ◌||◌, not, Option, none, some, List, [], ◌∷◌,
  add32, ltb, leb, ◌==◌, if◌then◌else◌,
}
use memwrapper.Machine.{Bytes, M, World, pure, ◌>>=◌, ◌>>◌, memset, read_bytes}
use memwrapper.Windows.{Windows, cpu}
use memwrapper.Detail.{
  CallingConvention, get_relative_address, restore_absolute_address, jump_oplen, byteof,
  call_function,
}
use memwrapper.Detail.Bytes.{number}
use memwrapper.Llmo.Operations.{write_memory, fill_memory, copy_memory, is_executable}
use memwrapper.Allocator
use memwrapper.Allocator.{BasicAllocator, page_size_4kb}
use memwrapper.Asm
use memwrapper.Asm.{eax, esp}
use memwrapper.Hook.Disassembler.{
  Hde32s, Disassembler, disassemble, has, f_error, f_relative, f_imm32,
}
use memwrapper.Hook.Relocation.{generate}

-- The bits of `m_flags`; all of them off is kNone.
pub record MemhookFlags : Type 0 where
  pub installed : Bool
  pub listing_broken : Bool
  pub executable : Bool
  pub call_instruction : Bool

abbrev pub no_flags : MemhookFlags
no_flags = record {
  installed = false;
  listing_broken = false;
  executable = false;
  call_instruction = false;
}

abbrev pub call_opcode : ℕ
call_opcode = 0xe8

abbrev pub jump_opcode : ℕ
jump_opcode = 0xe9

abbrev pub nop_opcode : ℕ
nop_opcode = 0x90

abbrev pub jump_size : ℕ
jump_size = 5

-- Where the jump to the hooker stands in the trampoline, and what follows it.
abbrev pub hooker_offset : ℕ
hooker_offset = 0xb

abbrev pub original_offset : ℕ
original_offset = 0x10

pub record Memhook : Type 0 where
  pub hookee : ℕ
  pub hooker : ℕ
  pub size : ℕ
  -- The smart pointers: the address of the saved bytes, and the trampoline.
  pub original_code : Option ℕ
  pub trampoline_code : Option BasicAllocator
  pub flags : MemhookFlags
  pub call_abs : ℕ
  -- The address of `m_context.return_address`.
  pub return_address : ℕ

pub record MemhookContext : Type 0 where
  pub return_address : ℕ

module _ (win : Windows) (hde32_disasm : Disassembler) where
  open win use {Kernel}

  -- The constructor's loop, with fuel: the size that it finds and whether the listing is broken.
  unfoldable pub measure : (fuel cursor size : ℕ) → M Kernel (ℕ × Bool)
  measure zero cursor size = λ w. none
  measure (suc fuel) cursor size =
      if leb jump_size size
      then pure (size, false)
      else (disassemble win hde32_disasm cursor >>= λ hs.
          if has f_error hs
          then pure (size, true)
          else measure fuel (cursor + hs.len) (size + hs.len))

  -- Six rounds are enough: each but the last adds a byte or more.
  unfoldable pub construct : (hookee hooker return_address : ℕ) → M Kernel Memhook
  construct hookee hooker return_address = do
    (size, broken) ← measure 6 hookee 0
    λ w. some (
      record {
        hookee = hookee;
        hooker = hooker;
        size = size;
        original_code = none;
        trampoline_code = none;
        flags = record no_flags {
          listing_broken = broken;
          executable = is_executable win hookee w.kernel;
        };
        call_abs = 0;
        return_address = return_address;
      },
      w,
    )

  -- A null smart pointer is dereferenced: an access violation.
  abbrev pub deref : {A : Type 0} → Option A → M Kernel A
  deref none w = none
  deref (some a) w = some (a, w)

  abbrev pub cannot_install : MemhookFlags → Bool
  cannot_install f = f.installed || f.listing_broken || not f.executable

  -- The jump to the hooker is written over what `remove` left there.
  unfoldable pub reinstall : Memhook → M Kernel Memhook
  reinstall h = do
    t ← deref h.trampoline_code
    t ← Asm.jmp win h.hooker (Allocator.set_offset hooker_offset t)
    Allocator.ready win t
    pure (record h { trampoline_code = some t; flags = record h.flags { installed = true } })

  -- The call's target, if the hooked instruction is a call.
  unfoldable pub look_for_call : Memhook → Hde32s → Memhook
  look_for_call h hs =
      if hs.opcode == call_opcode
      then record h {
        call_abs = restore_absolute_address hs.imm32 h.hookee jump_oplen;
        flags = record h.flags { call_instruction = true };
      }
      else h

  -- The trampoline's head: it stores the return address and jumps to the hooker.
  unfoldable pub write_head : Memhook → BasicAllocator → M Kernel BasicAllocator
  write_head h t = do
    t ← Asm.push win eax t
    t ← Asm.mov_load win eax esp 4 t
    t ← Asm.mov_store win h.return_address eax t
    t ← Asm.pop win eax t
    Asm.jmp win h.hooker t

  unfoldable pub patch_hookee : Memhook → BasicAllocator → M Kernel (Unit {0})
  patch_hookee h t = do
    if h.flags.call_instruction then pure tt else write_memory win h.hookee (jump_opcode ∷ [])
    write_memory win (add32 h.hookee 1)
        (byteof 4 (get_relative_address (Allocator.begin t) h.hookee jump_oplen))
    if ltb jump_size h.size
        then fill_memory win (add32 h.hookee jump_size) nop_opcode (h.size - jump_size)
        else pure tt

  -- The two smart pointers are set, and the original code is copied.
  unfoldable pub save_original : (storage : ℕ) → Memhook → M Kernel BasicAllocator
  save_original storage h = do
    memset (cpu win) storage 0 h.size
    t ← Asm.construct win page_size_4kb
    copy_memory win storage h.hookee h.size
    pure t

  unfoldable pub write_trampoline : Memhook → BasicAllocator → M Kernel BasicAllocator
  write_trampoline h t = do
    t ← write_head h t
    t ←
        if h.flags.call_instruction
        then pure t
        else generate win hde32_disasm (suc h.size) h.size h.hookee 0 t
    Allocator.ready win t
    pure t

  -- The rest of the first installation, when a call has been looked for.
  unfoldable pub install_trampoline : (storage : ℕ) → Memhook → M Kernel Memhook
  install_trampoline storage h = do
    t ← save_original storage h
    t ← write_trampoline h t
    patch_hookee h t
    pure (record h {
      original_code = some storage;
      trampoline_code = some t;
      flags = record h.flags { installed = true };
    })

  -- The first installation; `storage` is the address of the new array for the original code.
  unfoldable pub install_first : (storage : ℕ) → Memhook → M Kernel Memhook
  install_first storage h = do
    hs ← disassemble win hde32_disasm h.hookee
    install_trampoline storage (look_for_call h hs)

  unfoldable pub install : (storage : ℕ) → Memhook → M Kernel Memhook
  install storage h =
      if cannot_install h.flags
      then pure h
      else elim h.original_code [ none ↦ install_first storage h | some _ ↦ reinstall h ]

  -- The lambda `unload_hook`.
  unfoldable pub unload_hook : Memhook → M Kernel Memhook
  unload_hook h = do
    saved ← deref h.original_code
    copy_memory win h.hookee saved h.size
    t ← deref h.trampoline_code
    Allocator.free win t
    pure (record h { original_code = none; trampoline_code = none; flags = no_flags })

  -- The lambda `patch_hook`.
  unfoldable pub patch_hook : Memhook → M Kernel Memhook
  patch_hook h = do
    t ← deref h.trampoline_code
    t ←
        if h.flags.call_instruction
        then Asm.jmp win h.call_abs (Allocator.set_offset hooker_offset t)
        else (do fill_memory win (Allocator.get hooker_offset t) nop_opcode jump_size; pure t)
    Allocator.ready win t
    pure (record h { trampoline_code = some t; flags = record h.flags { installed = false } })

  -- What stands at the hookee is not a relative instruction with 32 bits.
  unfoldable pub is_foreign : Hde32s → Bool
  is_foreign hs = has f_error hs || not (has f_relative hs) || not (has f_imm32 hs)

  unfoldable pub remove : Memhook → M Kernel Memhook
  remove h =
      if not h.flags.installed
      then pure h
      else (disassemble win hde32_disasm h.hookee >>= λ hs.
          let destination = restore_absolute_address hs.imm32 h.hookee hs.len in
          let decide : M Kernel Memhook = (do
            t ← deref h.trampoline_code
            if (destination == Allocator.get 0 t) || (destination == h.call_abs)
                then unload_hook h
                else patch_hook h) in
          if is_foreign hs then unload_hook h else decide)

  -- The destructor.
  unfoldable pub destroy : Memhook → M Kernel (Unit {0})
  destroy h = do _ ← remove h; pure tt

  -- The address that `call` calls.
  unfoldable pub call_address : Memhook → M Kernel ℕ
  call_address h =
      if h.flags.call_instruction
      then pure h.call_abs
      else (do t ← deref h.trampoline_code; pure (Allocator.get original_offset t))

  -- A copy of `m_context`, of which the trampoline writes the one word.
  unfoldable pub get_context : Memhook → M Kernel MemhookContext
  get_context h = do
    bs ← read_bytes (cpu win) h.return_address 4
    pure (record { return_address = number bs })

module _ (win : Windows) (hde32_disasm : Disassembler) {V : Type 0}
    (invoke : CallingConvention → ℕ → List V → M win.Kernel V) where
  unfoldable pub call : CallingConvention → Memhook → List V → M win.Kernel V
  call convention h args = do
    address ← call_address win hde32_disasm h
    call_function invoke convention address args
