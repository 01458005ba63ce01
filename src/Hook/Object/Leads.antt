-- ===== src/Hook/Object/Leads.antt =====
-- Where the processor goes when the first four instructions of the head have run.
use memwrapper.Base.{
  ℕ, suc, List, replicate, ◌+◌, ◌≤◌, ◌<◌, ◌≡◌, refl, ap, ◌∙◌, some, arith, word_mod, add32,
}
use memwrapper.Machine.{slice}
use memwrapper.Machine.Overlay.{overlay_at, slice-ext}
use memwrapper.Detail.{get_relative_address, jump_oplen, byteof}
use memwrapper.Detail.Addresses.{get_relative_address-lt}
use memwrapper.Detail.Bytes.{length-byteof}
use memwrapper.Asm.{eax}
use memwrapper.Asm.Decoder
use memwrapper.Asm.Decoder.{Instruction, decode, sign_extend}
use memwrapper.Asm.Encoding.{jmp_bytes, decode-jmp_bytes}
use memwrapper.Asm.Processor.{
  Processor, execute, step, steps, step-execute, word_at-lt, word_at-overlay,
}
use memwrapper.Asm.Nops.{nop_byte, steps-nops}
use memwrapper.Hook.Object.{hooker_offset}
use memwrapper.Hook.Object.Head.{Begins}
use memwrapper.Hook.Object.Entry.{
  IsEntry, Entered, begun, top, word, pushed, step_push, step_load, step_store, step_pop,
  restored-eq,
}

-- `jmp` by the displacement leads to its target.
pub jump_target :
    (to from : ℕ)
    → to < word_mod
    → add32 (add32 from 5) (get_relative_address to from jump_oplen) ≡ to
unfolding get_relative_address
jump_target to from h = omega arith

module _ (ra target : ℕ) (s : Processor) (e : IsEntry ra target s)
    (begins : Begins s.bytes ra s.eip) where
  -- What stands behind the head's first instructions in memory does so when they have run.
  pub stored_outside :
      (n : ℕ) (bs : List ℕ)
      → hooker_offset + n ≤ 16
      → slice s.bytes (s.eip + hooker_offset) n ≡ bs
      → slice (begun ra target s e begins).bytes (begun ra target s e begins).eip n ≡ bs
  stored_outside n bs le h =
      slice-ext (begun ra target s e begins).bytes s.bytes (begun ra target s e begins).eip
        (begun ra target s e begins).eip n
        (λ i lt. ground (
          arith,
          overlay_at (pushed s) ra (byteof 4 (word s)) ((begun ra target s e begins).eip + i),
          overlay_at s.bytes (top s) (byteof 4 (s.registers eax))
              ((begun ra target s e begins).eip + i),
          length-byteof 4 (word s),
          length-byteof 4 (s.registers eax),
          e.stack_apart,
          e.context_apart,
        ))
      ∙ h

  -- Four instructions and those behind them, which only lead on, make an entry of the target.
  pub begun-Entered :
      (n : ℕ)
      → steps n (begun ra target s e begins)
        ≡ some (record (begun ra target s e begins) { eip = target })
      → (s' : Processor) × (steps (4 + n) s ≡ some s') × Entered ra target s s'
  unfolding steps
  begun-Entered n leads_on = (
    record (begun ra target s e begins) { eip = target },
    ap (λ k. steps k s) {y = suc (suc (suc (suc n)))} (omega arith)
        ∙ rw
            (
              step_push ra target s e begins,
              step_load ra target s e begins,
              step_store ra target s e begins,
              step_pop ra target s e begins,
            )
            leads_on,
    record {
      at_target = refl;
      registers = restored-eq ra target s e begins;
      saved = word_at-overlay (pushed s) ra (word s) (word_at-lt s.bytes _ e.stack_bytes);
      elsewhere = λ a out below. ground (
        arith,
        overlay_at (pushed s) ra (byteof 4 (word s)) a,
        overlay_at s.bytes (top s) (byteof 4 (s.registers eax)) a,
        length-byteof 4 (word s),
        length-byteof 4 (s.registers eax),
      );
    },
  )

  -- The fifth instruction is a jump.
  pub jump-Entered :
      slice s.bytes (s.eip + hooker_offset) 5
        ≡ jmp_bytes (get_relative_address target (s.eip + hooker_offset) jump_oplen)
      → (s' : Processor) × (steps 5 s ≡ some s') × Entered ra target s s'
  unfolding execute byteof steps
  jump-Entered h = begun-Entered 1 (rw step_jump)
    where
      rel32 : ℕ
      rel32 = get_relative_address target (s.eip + hooker_offset) jump_oplen

      step_jump :
          step (begun ra target s e begins)
          ≡ some (record (begun ra target s e begins) { eip = target })
      step_jump =
          step-execute (jmp_bytes rel32) (Decoder.jump rel32) (begun ra target s e begins)
            (stored_outside 5 (jmp_bytes rel32) (omega arith) h)
            (λ rest. decode-jmp_bytes rel32 rest (get_relative_address-lt target _ jump_oplen))
            (omega arith)
          ∙ ap (λ n. some (record (begun ra target s e begins) { eip = n }))
              (jump_target target (s.eip + hooker_offset) e.target_word)

  -- Five `nop`s lead to what stands behind the head.
  pub nops-Entered :
      target ≡ s.eip + 16
      → slice s.bytes (s.eip + hooker_offset) 5 ≡ replicate 5 nop_byte
      → (s' : Processor) × (steps 9 s ≡ some s') × Entered ra target s s'
  nops-Entered there h = begun-Entered 5 (
      steps-nops 5 (begun ra target s e begins) (stored_outside 5 _ (omega arith) h)
        (omega (arith, e.code_word))
      ∙ ap (λ n. some (record (begun ra target s e begins) { eip = n })) (omega (arith, there)))
