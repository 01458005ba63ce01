-- ===== src/Tests/Hook.antt =====
-- The hook with a disassembler that knows jumps and calls with 32 bits.
use memwrapper.Base.{
  ℕ, suc, ap, ◌∙◌, ◌+◌, ◌<◌, ◌≡◌, ◌↔◌, refl, some, true, inl, ◌⊎◌, arith, if◌then◌else◌, ◌==◌, ◌||◌,
}
use memwrapper.Machine.{Bytes, World, slice, overlay}
use memwrapper.Machine.Overlay.{slice-ext, slice-overlay}
use memwrapper.Machine.Returns.{Returns}
use memwrapper.Windows.Simulation.{simulation, simulation-laws, Pages}
use memwrapper.Detail.{byteof}
use memwrapper.Detail.Bytes.{number}
use memwrapper.Hook.Disassembler.{has, Hde32s, Disassembler, DisassemblerLaws, imm8}
use memwrapper.Hook.Relocation.{relocate, jmp_destination}
use memwrapper.Hook.Relocation.Branches.{Keeps, branch, jumps_if, Missed, relocate-Keeps}
use memwrapper.Hook.Relocation.Targets.{short_target, short_destination-eq_iff}
use memwrapper.Hook.Object.{Memhook, no_flags, construct, remove, jump_opcode}
use memwrapper.Hook.Object.Cycle.{reads_jump}
use memwrapper.Hook.Object.Reads.{jump_to}
use memwrapper.Hook.Object.Lifecycle.{Unloaded, remove-Unloaded}
use memwrapper.Hook.Measure.{Constructed, construct-Measured}
use memwrapper.Tests.Memory.{read_only}
use memwrapper.Tests.Asm.{fresh}

-- Jumps and calls with 32 bits, and instructions of two bytes everywhere else.
abbrev pub small : Disassembler
small = λ f p.
    if (f p == 0xe9) || (f p == 0xe8)
    then record {
      len = 5;
      opcode = f p;
      opcode2 = 0;
      imm32 = number (slice f (p + 1) 4);
      flags = 0x110;
      extent = 5;
    }
    else record { len = 2; opcode = f p; opcode2 = 0; imm32 = 0; flags = 0; extent = 2 }

small-local :
    (f g : Bytes) (p : ℕ) → ((i : ℕ) → i < 32 → f (p + i) ≡ g (p + i)) → small f p ≡ small g p
small-local f g p h =
    rw
      (
        same_byte,
        slice-ext f g (p + 1) (p + 1) 4 (λ i lt.
            ap f {y = p + suc i} (omega arith) ∙ h (suc i) (omega arith) ∙ ap g (omega arith)),
      )
      refl
  where
    same_byte : f p ≡ g p
    same_byte = ap f {y = p + 0} (omega arith) ∙ h 0 (omega arith) ∙ ap g (omega arith)

pub small-DisassemblerLaws : DisassemblerLaws small
unfolding has
small-DisassemblerLaws = record {
  len_pos = λ f p. ground arith;
  extent-len = λ f p e. ground arith;
  extent_pos = λ f p. ground arith;
  extent-le = λ f p. ground arith;
  len-le = λ f p. ground arith;
  local = small-local;
  jump = λ f p e. rw (ap (λ b. b == 0xe9) e) (refl, refl, refl, refl, refl, e, refl);
  call = λ f p e.
      rw (ap (λ b. b == 0xe9) e, ap (λ b. b == 0xe8) e) (refl, refl, refl, refl, refl, e, refl);
}

construct-Measured_example :
    Returns
      (λ h v. Constructed small read_only.bytes 0x1000 h × (v ≡ read_only))
      (construct simulation small 0x1000 0x2000 0x3000 read_only)
construct-Measured_example =
    construct-Measured simulation small 0x1000 0x2000 0x3000 read_only small-DisassemblerLaws
      (λ i lt. ground arith)

abbrev short_jump : Hde32s
short_jump = record { len = 2; opcode = 0xeb; opcode2 = 0; imm32 = 0x10; flags = 0x104; extent = 2 }

short_destination-eq_iff_example :
    (jmp_destination 0x401000 short_jump ≡ short_target 0x401000 short_jump)
    ↔ (imm8 short_jump < 128)
short_destination-eq_iff_example = short_destination-eq_iff 0x401000 short_jump refl

abbrev short_branch : Hde32s
short_branch = record {
  len = 2;
  opcode = 0x74;
  opcode2 = 0;
  imm32 = 0x10;
  flags = 0x104;
  extent = 2;
}

abbrev hooked : Memhook
hooked = record {
  hookee = 0x401010;
  hooker = 0x402000;
  size = 6;
  original_code = some 0x1010;
  trampoline_code = some fresh;
  flags = record no_flags { installed = true; executable = true };
  call_abs = 0;
  return_address = 0x3000;
}

-- A jump to the trampoline at 0x5000 stands at the hooked function.
abbrev patched : World Pages
patched = record read_only {
  bytes = overlay read_only.bytes 0x401010 (jump_to jump_opcode 0x5000 0x401010);
}

remove-Unloaded_example :
    Returns
      (Unloaded simulation simulation-laws small 0x1010 fresh hooked patched)
      (remove simulation small hooked patched)
unfolding byteof
remove-Unloaded_example =
    remove-Unloaded simulation simulation-laws small jump_opcode 0x1010 fresh hooked patched
      (reads_jump small small-DisassemblerLaws)
      (record { original = refl; trampoline = refl; commit = refl; readable = λ i h. ground arith })
      (record {
        installed = refl;
        stands = slice-overlay read_only.bytes 0x401010 (jump_to jump_opcode 0x5000 0x401010);
        can_read = λ i h. ground arith;
        in_words = omega arith;
        room = omega arith;
      })

relocate-Keeps_example :
    Keeps 0x5000
      (some (record { kind = jumps_if 4; target = 0x401012 }))
      (relocate 0x401000 0x5000 short_branch)
    ⊎ Missed 0x401000 0x5000 short_branch
unfolding branch
relocate-Keeps_example =
    relocate-Keeps 0x401000 0x5000 short_branch (omega arith) (inl refl) (λ e. omega arith)
      (λ e. omega arith)
