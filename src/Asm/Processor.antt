-- ===== src/Asm/Processor.antt =====
-- What the processor does on the instructions of the decoder, as the Intel manual describes them:
-- fetch at eip, decode, execute. Protections are left out.
use memwrapper.Base.{
  ℕ, zero, suc, ◌+◌, ◌-◌, ◌≤◌, ◌<◌, ◌≡◌, sym, true, within, Apart, word_mod, ap, ◌∙◌, Option, none,
  some, List, ◌++◌, arith, add32, sub32, length, if◌then◌else◌, ◌==◌,
}
use memwrapper.Machine.{Bytes, slice, overlay}
use memwrapper.Machine.Overlay.{slice-add, length-slice, slice-overlay, slice-overlay_apart}
use memwrapper.Detail.{byteof}
use memwrapper.Detail.Bytes.{number, number-byteof, length-byteof}
use memwrapper.Asm.{Registers, code, esp}
use memwrapper.Asm.Decoder
use memwrapper.Asm.Decoder.{Instruction, decode}

pub record Processor : Type 0 where
  pub registers : Registers → ℕ
  pub eip : ℕ
  pub bytes : Bytes

-- The word of 32 bits at an address, lowest byte first.
abbrev pub word_at : Bytes → ℕ → ℕ
word_at f p = number (slice f p 4)

abbrev pub set_register : Registers → ℕ → (Registers → ℕ) → Registers → ℕ
set_register r v f q = if code q == code r then v else f q

-- `next` is the address behind the instruction.
unfoldable pub execute : Instruction → (next : ℕ) → Processor → Processor
execute (Decoder.push r) next s =
    let top = sub32 (s.registers esp) 4 in
    record {
      registers = set_register esp top s.registers;
      eip = next;
      bytes = overlay s.bytes top (byteof 4 (s.registers r));
    }
execute (Decoder.pop r) next s =
    let top = s.registers esp in
    record s {
      registers = set_register r (word_at s.bytes top) (set_register esp (add32 top 4) s.registers);
      eip = next;
    }
execute (Decoder.load target source displacement) next s = record s {
  registers =
      set_register target (word_at s.bytes (add32 (s.registers source) displacement)) s.registers;
  eip = next;
}
execute (Decoder.load_absolute target address) next s = record s {
  registers = set_register target (word_at s.bytes address) s.registers;
  eip = next;
}
execute (Decoder.store_absolute address source) next s = record s {
  bytes = overlay s.bytes address (byteof 4 (s.registers source));
  eip = next;
}
execute (Decoder.jump displacement) next s = record s { eip = add32 next displacement }
execute Decoder.nop next s = record s { eip = next }

abbrev executed : Decoder.Decoded → Processor → Option Processor
executed none s = none
executed (some (i, rest)) s = some (execute i (add32 s.eip (15 - length rest)) s)

-- No instruction is longer than 15 bytes.
unfoldable pub step : Processor → Option Processor
step s = executed (decode (slice s.bytes s.eip 15)) s

abbrev and_then : Option Processor → (Processor → Option Processor) → Option Processor
and_then none f = none
and_then (some s) f = f s

unfoldable pub steps : ℕ → Processor → Option Processor
steps zero s = some s
steps (suc n) s = and_then (step s) (steps n)

-- Where an instruction stands at eip, it is what is executed.
pub step-execute :
    (bs : List ℕ) (i : Instruction) (s : Processor)
    → slice s.bytes s.eip (length bs) ≡ bs
    → ((rest : List ℕ) → decode (bs ++ rest) ≡ some (i, rest))
    → length bs ≤ 15
    → step s ≡ some (execute i (add32 s.eip (length bs)) s)
unfolding step
step-execute bs i s stands d short =
    rw (fetched, d rest, length-slice s.bytes (s.eip + length bs) (15 - length bs))
      (ap (λ n. some (execute i (add32 s.eip n) s)) {x = 15 - (15 - length bs)} (omega arith))
  where
    rest : List ℕ
    rest = slice s.bytes (s.eip + length bs) (15 - length bs)

    fetched : slice s.bytes s.eip 15 ≡ bs ++ rest
    fetched =
        ap (slice s.bytes s.eip) {y = length bs + (15 - length bs)} (omega arith)
        ∙ slice-add s.bytes s.eip (length bs) (15 - length bs)
        ∙ ap (λ xs. xs ++ rest) stands

pub steps-suc : (n : ℕ) (s s' : Processor) → step s ≡ some s' → steps (suc n) s ≡ steps n s'
unfolding steps
steps-suc n s s' e = rw e

pub word_at-lt :
    (f : Bytes) (p : ℕ) → ((a : ℕ) → within p 4 a ≡ true → f a < 256) → word_at f p < word_mod
unfolding slice number
word_at-lt f p h = omega (
  arith,
  h p (ground arith),
  h (p + 1) (ground arith),
  h (p + 1 + 1) (ground arith),
  h (p + 1 + 1 + 1) (ground arith),
)

-- A word that was written is read back.
pub word_at-overlay :
    (f : Bytes) (p v : ℕ) → v < word_mod → word_at (overlay f p (byteof 4 v)) p ≡ v
word_at-overlay f p v h =
    ap (λ n. number (slice (overlay f p (byteof 4 v)) p n)) (sym (length-byteof 4 v))
    ∙ ap number (slice-overlay f p (byteof 4 v))
    ∙ number-byteof 4 v (omega (arith, h))

pub word_at-overlay-Apart :
    (f : Bytes) (p v q : ℕ) → Apart p 4 q 4 → word_at (overlay f p (byteof 4 v)) q ≡ word_at f q
word_at-overlay-Apart f p v q h =
    ap number (slice-overlay_apart f p (byteof 4 v) q 4 (rw (length-byteof 4 v) h))
