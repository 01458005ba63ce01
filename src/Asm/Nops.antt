-- ===== src/Asm/Nops.antt =====
-- A run of `nop`s on the processor.
use memwrapper.Base.{
  ℕ, zero, suc, ◌+◌, ◌<◌, ◌≡◌, refl, ap, ◌∙◌, some, [], ◌∷◌, arith, replicate, word_mod,
}
use memwrapper.Machine.{slice}
use memwrapper.Asm.Decoder
use memwrapper.Asm.Decoder.{decode}
use memwrapper.Asm.Processor.{Processor, execute, step, steps, step-execute, steps-suc}

abbrev pub nop_byte : ℕ
nop_byte = 0x90

-- The processor passes over `nop`s and changes nothing.
pub steps-nops :
    (n : ℕ) (s : Processor)
    → slice s.bytes s.eip n ≡ replicate n nop_byte
    → s.eip + n < word_mod
    → steps n s ≡ some (record s { eip = s.eip + n })
unfolding steps slice execute decode
steps-nops zero s e lt = ap (λ p. some (record s { eip = p })) (omega arith)
steps-nops (suc n) s e lt =
    steps-suc n s (record s { eip = s.eip + 1 }) first
    ∙ steps-nops n (record s { eip = s.eip + 1 }) (cc e) (omega arith)
    ∙ ap (λ p. some (record s { eip = p })) (omega arith)
  where
    first : step s ≡ some (record s { eip = s.eip + 1 })
    first =
        step-execute (nop_byte ∷ []) Decoder.nop s (cc e) (λ rest. refl) (omega arith)
        ∙ ap (λ p. some (record s { eip = p })) (omega arith)
