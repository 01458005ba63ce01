-- ===== src/Hook/Disassembler.antt =====
-- hde32_disasm of the Hacker Disassembler Engine, as a parameter: what it makes of the bytes at an
-- address. The fields and flags are those of memwrapper/hde/hde32.h that the hook reads. A call
-- reads the bytes where they stand, so it faults where one of them may not be read.
use Prim.Native.Nat.{bit_and}
use memwrapper.Base.{
  ℕ, suc, ◌+◌, ◌≤◌, ◌<◌, ◌≡◌, ◌⊎◌, inl, inr, refl, Option, none, some, Bool, true, false, not, byte,
  ◌==◌,
}
use memwrapper.Machine.{Bytes, M, World, slice, load, read_bytes}
use memwrapper.Machine.Run.{CanRead, read_bytes-slice}
use memwrapper.Windows.{Windows, cpu}
use memwrapper.Detail.Bytes.{number}

-- The union `imm` is cleared before it is set, so `imm8` is the low byte of `imm32`.
pub record Hde32s : Type 0 where
  pub len : ℕ
  pub opcode : ℕ
  pub opcode2 : ℕ
  pub imm32 : ℕ
  pub flags : ℕ
  -- How many bytes the engine reads; no member of the structure.
  pub extent : ℕ

abbrev pub imm8 : Hde32s → ℕ
imm8 hs = byte hs.imm32

abbrev pub f_imm32 : ℕ
f_imm32 = 0x10

abbrev pub f_relative : ℕ
f_relative = 0x100

abbrev pub f_error : ℕ
f_error = 0x1000

-- hs.flags & flag
unfoldable pub has : (flag : ℕ) → Hde32s → Bool
has flag hs = not (bit_and hs.flags flag == 0)

abbrev pub Disassembler : Type 0
Disassembler = Bytes → ℕ → Hde32s

-- A call of the engine from the hook: it reads the bytes, and changes nothing.
unfoldable pub disassemble : (win : Windows) → Disassembler → ℕ → M win.Kernel Hde32s
disassemble win hde32_disasm p w = elim (read_bytes (cpu win) p (hde32_disasm w.bytes p).extent w) [
  | none ↦ none
  | some _ ↦ some (hde32_disasm w.bytes p, w)
]

-- It faults or returns.
pub disassemble-cases :
    (win : Windows) (d : Disassembler) (p : ℕ) (w : World win.Kernel)
    → (disassemble win d p w ≡ none) ⊎ (disassemble win d p w ≡ some (d w.bytes p, w))
unfolding disassemble
disassemble-cases win d p w =
    elim (read_bytes (cpu win) p (d w.bytes p).extent w)
      as (λ r.
        (◌≡◌ {A = Option (Hde32s × World win.Kernel)}
          (elim r [ none ↦ none | some _ ↦ some (d w.bytes p, w) ]) none)
        ⊎ (◌≡◌ {A = Option (Hde32s × World win.Kernel)}
            (elim r [ none ↦ none | some _ ↦ some (d w.bytes p, w) ]) (some (d w.bytes p, w)))) [
              | none ↦ inl refl
              | some _ ↦ inr refl
            ]

-- It returns where those bytes may be read.
pub disassemble-returns :
    (win : Windows) (d : Disassembler) (p : ℕ) (w : World win.Kernel)
    → CanRead (cpu win) w.kernel p (d w.bytes p).extent
    → disassemble win d p w ≡ some (d w.bytes p, w)
unfolding disassemble
disassemble-returns win d p w r =
    rw (disassemble, read_bytes-slice (cpu win) p (d w.bytes p).extent w r) refl

-- It faults where the first of them may not be read.
pub disassemble-fault :
    (win : Windows) (d : Disassembler) (p : ℕ) (w : World win.Kernel) (n : ℕ)
    → (d w.bytes p).extent ≡ suc n
    → win.readable (win.protection w.kernel p) ≡ false
    → disassemble win d p w ≡ none
unfolding disassemble read_bytes load
disassemble-fault win d p w n e out = rw (disassemble, e, out) refl

-- What the hook relies on: an instruction has from 1 to 15 bytes, and what it is depends on the
-- bytes from its address on, of which the engine reads 32 at most; if it accepts the instruction,
-- it reads no more than that and the byte behind it, at which it looks for a SIB byte; and a jump or
-- a call with 32 bits is read as what it is, and nothing else.
pub record DisassemblerLaws (hde32_disasm : Disassembler) : Type 0 where
  pub len_pos : (f : Bytes) (p : ℕ) → 1 ≤ (hde32_disasm f p).len
  pub extent-len :
      (f : Bytes) (p : ℕ)
      → has f_error (hde32_disasm f p) ≡ false
      → (hde32_disasm f p).extent ≤ (hde32_disasm f p).len + 1
  pub extent_pos : (f : Bytes) (p : ℕ) → 1 ≤ (hde32_disasm f p).extent
  pub extent-le : (f : Bytes) (p : ℕ) → (hde32_disasm f p).extent ≤ 32
  pub len-le : (f : Bytes) (p : ℕ) → (hde32_disasm f p).len ≤ 15
  pub local :
      (f g : Bytes) (p : ℕ)
      → ((i : ℕ) → i < 32 → f (p + i) ≡ g (p + i))
      → hde32_disasm f p ≡ hde32_disasm g p
  pub jump :
      (f : Bytes) (p : ℕ)
      → f p ≡ 0xe9
      → ((hde32_disasm f p).len ≡ 5)
        × ((hde32_disasm f p).imm32 ≡ number (slice f (p + 1) 4))
        × (has f_error (hde32_disasm f p) ≡ false)
        × (has f_relative (hde32_disasm f p) ≡ true)
        × (has f_imm32 (hde32_disasm f p) ≡ true)
        × ((hde32_disasm f p).opcode ≡ 0xe9)
        × ((hde32_disasm f p).extent ≡ 5)
  pub call :
      (f : Bytes) (p : ℕ)
      → f p ≡ 0xe8
      → ((hde32_disasm f p).len ≡ 5)
        × ((hde32_disasm f p).imm32 ≡ number (slice f (p + 1) 4))
        × (has f_error (hde32_disasm f p) ≡ false)
        × (has f_relative (hde32_disasm f p) ≡ true)
        × (has f_imm32 (hde32_disasm f p) ≡ true)
        × ((hde32_disasm f p).opcode ≡ 0xe8)
        × ((hde32_disasm f p).extent ≡ 5)
