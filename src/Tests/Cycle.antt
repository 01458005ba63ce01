-- ===== src/Tests/Cycle.antt =====
-- A hook on three instructions of two bytes, and one on an instruction and a jump, which is
-- installed.
use memwrapper.Base.{ℕ, ◌≡◌, ◌^◌, refl, none, true, arith, List, ◌∷◌, ◌++◌, ◌+◌}
use memwrapper.Machine.{slice}
use memwrapper.Machine.Returns.{Returns}
use memwrapper.Windows.Simulation.{simulation, simulation-laws}
use memwrapper.Llmo.Unprotect.Scope.{Same}
use memwrapper.Allocator.{BasicAllocator}
use memwrapper.Hook.Disassembler.{has}
use memwrapper.Detail.{get_relative_address, jump_oplen, byteof}
use memwrapper.Detail.Bytes.{number}
use memwrapper.Asm.Encoding.{jmp_bytes}
use memwrapper.Hook.Relocation.{relocate, is_jmp, is_jcc, jmp_destination}
use memwrapper.Hook.Relocation.Rewritten.{closed, next, piece_bytes}
use memwrapper.Hook.Relocation.Copies.{PlainListing, nil, cons}
use memwrapper.Hook.Object.{Memhook, no_flags, install}
use memwrapper.Hook.Object.Saved.{Installable}
use memwrapper.Hook.Object.Installed.{
  IsNew, InMemory, installed_hook, k₁, install-InMemory, plain_bytes, plain-Relocates,
}
use memwrapper.Hook.Object.Written.{Relocates}
use memwrapper.Tests.Allocator.{writable_world}
use memwrapper.Tests.Hook.{small, small-DisassemblerLaws}

abbrev pub new_hook : Memhook
new_hook = record {
  hookee = 0x401010;
  hooker = 0x402000;
  size = 6;
  original_code = none;
  trampoline_code = none;
  flags = record no_flags { executable = true };
  call_abs = 0;
  return_address = 0x403000;
}

abbrev pub page : ℕ
page = 2 ^ 30

pub new_hook-IsNew : IsNew new_hook
new_hook-IsNew = record {
  not_installed = refl;
  not_broken = refl;
  executable = refl;
  no_original = refl;
  plain = refl;
}

pub three_instructions : PlainListing small writable_world.bytes 0x401010 6
unfolding has is_jmp is_jcc
three_instructions =
    cons {m = 4} (record { accepted = refl; no_call = refl; no_jmp = refl; no_jcc = refl })
      (cons {m = 2} (record { accepted = refl; no_call = refl; no_jmp = refl; no_jcc = refl })
        (cons {m = 0} (record { accepted = refl; no_call = refl; no_jmp = refl; no_jcc = refl })
          (nil refl) refl)
        refl)
      refl

pub new_hook-Installable : Installable simulation 0x500010 page new_hook writable_world
new_hook-Installable = record {
  enough = omega arith;
  small = omega arith;
  word = omega arith;
  target = record { commit = refl; uniform = λ a h. refl };
  target_read = λ i h. refl;
  behind = refl;
  store = record { commit = refl; uniform = λ a h. refl };
  store_read = λ i h. refl;
  store_write = λ i h. refl;
  apart = omega arith;
  new = record { address = refl; nonzero = λ e. omega arith };
}

abbrev pub plain_rewritten : List ℕ
plain_rewritten = plain_bytes page new_hook writable_world.bytes

pub new_hook-Relocates : Relocates small writable_world.bytes page new_hook plain_rewritten
new_hook-Relocates =
    plain-Relocates small writable_world.bytes page new_hook small-DisassemblerLaws (omega arith)
      three_instructions

-- Two bytes and a jump: the byte at 0x4010e9 is 0xe9.
abbrev on_jump : Memhook
on_jump = record new_hook { hookee = 0x4010e7; size = 7 }

on_jump-IsNew : IsNew on_jump
on_jump-IsNew = record {
  not_installed = refl;
  not_broken = refl;
  executable = refl;
  no_original = refl;
  plain = refl;
}

on_jump-Installable : Installable simulation 0x500010 page on_jump writable_world
on_jump-Installable = record {
  enough = omega arith;
  small = omega arith;
  word = omega arith;
  target = record { commit = refl; uniform = λ a h. refl };
  target_read = λ i h. refl;
  behind = refl;
  store = record { commit = refl; uniform = λ a h. refl };
  store_read = λ i h. refl;
  store_write = λ i h. refl;
  apart = omega arith;
  new = record { address = refl; nonzero = λ e. omega arith };
}

-- The jump by 0xedecebea leads to 0xee2cfcd8, before and after.
abbrev jump_rewritten : List ℕ
jump_rewritten =
    0xe7 ∷ 0xe8 ∷ jmp_bytes (get_relative_address 0xee2c_fcd8 (page + 18) jump_oplen)
    ++ jmp_bytes (get_relative_address 0x4010ee (page + 23) jump_oplen)

on_jump-Relocates : Relocates small writable_world.bytes page on_jump jump_rewritten
unfolding relocate is_jmp is_jcc jmp_destination has piece_bytes slice byteof number
    get_relative_address
on_jump-Relocates = record {
  no_call = refl;
  span = 7;
  covered = omega arith;
  rewritten =
      next {m = 5} (omega arith) refl
        (next {m = 0} (omega arith) refl (closed (omega arith) refl) refl) refl;
}

install-InMemory_example :
    Returns
      (λ h' u.
        (t : BasicAllocator) × (t.code ≡ page)
        × (t.size ≡ 4096)
        × (h' ≡ installed_hook 0x500010 on_jump t)
        × InMemory 0x500010 page on_jump jump_rewritten writable_world.bytes u.bytes
        × Same simulation
            (k₁ simulation simulation-laws small small-DisassemblerLaws 0x500010 page on_jump
              writable_world on_jump-IsNew on_jump-Installable jump_rewritten on_jump-Relocates)
            u.kernel)
      (install simulation small 0x500010 on_jump writable_world)
install-InMemory_example =
    install-InMemory simulation simulation-laws small small-DisassemblerLaws 0x500010 page on_jump
      writable_world on_jump-IsNew on_jump-Installable jump_rewritten on_jump-Relocates
