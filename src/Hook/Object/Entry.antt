-- ===== src/Hook/Object/Entry.antt =====
-- What the trampoline's head does when the hooked function is entered: the processor runs it.
use memwrapper.Base.{
  ℕ, ◌+◌, ◌-◌, ◌≤◌, ◌<◌, ◌≡◌, refl, ap, ◌∙◌, Apart, inr, some, true, false, arith, within, word_mod,
  add32,
}
use mathlib.Core.Path.{ap₂}
use memwrapper.Machine.{Bytes, overlay}
use memwrapper.Detail.{byteof}
use memwrapper.Asm.{Registers, eax, esp}
use memwrapper.Asm.Decoder
use memwrapper.Asm.Decoder.{Instruction, decode, sign_extend}
use memwrapper.Asm.Encoding.{
  push_bytes, pop_bytes, mov_load_bytes, mov_store_bytes, decode-push_bytes, decode-mov_load_bytes,
  decode-mov_store_bytes,
}
use memwrapper.Asm.Processor.{
  Processor, execute, step, step-execute, set_register, word_at, word_at-overlay,
  word_at-overlay-Apart,
}
use memwrapper.Hook.Object.{hooker_offset}
use memwrapper.Hook.Object.Head.{Begins, Begins-overlay}

-- The processor is about to run a head at eip: nothing wraps, the word at the stack's top holds
-- bytes, and neither the word below the stack's top nor the saved return address lies in the head
-- or in one another.
pub record IsEntry (return_address target : ℕ) (s : Processor) : Type 0 where
  pub code_word : s.eip + 16 < word_mod
  pub stack : 4 ≤ s.registers esp
  pub stack_word : s.registers esp + 4 ≤ word_mod
  pub eax_word : s.registers eax < word_mod
  pub target_word : target < word_mod
  pub context_word : return_address < word_mod
  pub stack_bytes : (a : ℕ) → within (s.registers esp) 4 a ≡ true → s.bytes a < 256
  pub stack_apart : Apart (s.registers esp - 4) 4 s.eip 16
  pub context_apart : Apart return_address 4 s.eip 16
  pub context_stack : Apart return_address 4 (s.registers esp - 4) 4

-- The target is entered as the hooked function was: with the same registers and the same memory,
-- but for the word below the stack's top and for the return address, which is saved.
pub record Entered (return_address target : ℕ) (s s' : Processor) : Type 0 where
  pub at_target : s'.eip ≡ target
  pub registers : (r : Registers) → s'.registers r ≡ s.registers r
  pub saved : word_at s'.bytes return_address ≡ word_at s.bytes (s.registers esp)
  pub elsewhere :
      (a : ℕ)
      → within return_address 4 a ≡ false
      → within (s.registers esp - 4) 4 a ≡ false
      → s'.bytes a ≡ s.bytes a

module _ (s : Processor) where
  abbrev pub top : ℕ
  top = s.registers esp - 4

  abbrev pub word : ℕ
  word = word_at s.bytes (s.registers esp)

  -- The memory after the push, and after the store.
  abbrev pub pushed : Bytes
  pushed = overlay s.bytes top (byteof 4 (s.registers eax))

  abbrev pub stored : (ra : ℕ) → Bytes
  stored ra = overlay pushed ra (byteof 4 word)

  -- The registers after the push, the load and the pop.
  abbrev lowered : Registers → ℕ
  lowered = set_register esp top s.registers

  abbrev loaded : Registers → ℕ
  loaded = set_register eax word lowered

  abbrev restored : (ra : ℕ) → Registers → ℕ
  restored ra = set_register eax (word_at (stored ra) top) (set_register esp (add32 top 4) loaded)

module _ (ra target : ℕ) (s : Processor) (e : IsEntry ra target s)
    (begins : Begins s.bytes ra s.eip) where
  Begins-pushed : Begins (pushed s) ra s.eip
  Begins-pushed = Begins-overlay s.bytes ra s.eip (top s) (s.registers eax) e.stack_apart begins

  Begins-stored : Begins (stored s ra) ra s.eip
  Begins-stored = Begins-overlay (pushed s) ra s.eip ra (word s) e.context_apart Begins-pushed

  pub step_push :
      step s ≡ some (record { registers = lowered s; eip = s.eip + 1; bytes = pushed s })
  unfolding execute byteof
  step_push =
      step-execute (push_bytes eax) (Decoder.push eax) s begins.pushes
        (λ rest. (decode-push_bytes eax rest).0) (omega arith)
      ∙ ap₂
          (λ t n. some (record {
            registers = set_register esp t s.registers;
            eip = n;
            bytes = overlay s.bytes t (byteof 4 (s.registers eax));
          }))
          (omega (arith, e.stack, e.stack_word)) (omega (arith, e.code_word))

  pub step_load :
      step (record { registers = lowered s; eip = s.eip + 1; bytes = pushed s })
      ≡ some (record { registers = loaded s; eip = s.eip + 5; bytes = pushed s })
  unfolding execute byteof
  step_load =
      step-execute (mov_load_bytes eax esp 4) (Decoder.load eax esp (sign_extend 4)) _
        Begins-pushed.loads (λ rest. decode-mov_load_bytes eax esp 4 rest (inr (omega arith)))
        (omega arith)
      ∙ ap₂
          (λ w n.
            some (record { registers = set_register eax w (lowered s); eip = n; bytes = pushed s }))
          (ap (word_at (pushed s)) (omega (arith, e.stack, e.stack_word))
            ∙ word_at-overlay-Apart s.bytes (top s) (s.registers eax) (s.registers esp)
                (omega (arith, e.stack)))
          (omega (arith, e.code_word))

  pub step_store :
      step (record { registers = loaded s; eip = s.eip + 5; bytes = pushed s })
      ≡ some (record { registers = loaded s; eip = s.eip + 10; bytes = stored s ra })
  unfolding execute byteof
  step_store =
      step-execute (mov_store_bytes ra eax) (Decoder.store_absolute ra eax) _ Begins-pushed.stores
        (λ rest. decode-mov_store_bytes ra eax rest e.context_word) (omega arith)
      ∙ ap (λ n. some (record { registers = loaded s; eip = n; bytes = stored s ra }))
          (omega (arith, e.code_word))

  pub step_pop :
      step (record { registers = loaded s; eip = s.eip + 10; bytes = stored s ra })
      ≡ some
          (record { registers = restored s ra; eip = s.eip + hooker_offset; bytes = stored s ra })
  unfolding execute
  step_pop =
      step-execute (pop_bytes eax) (Decoder.pop eax) _ Begins-stored.pops
        (λ rest. (decode-push_bytes eax rest).1) (omega arith)
      ∙ ap (λ n. some (record { registers = restored s ra; eip = n; bytes = stored s ra }))
          (omega (arith, e.code_word))

  pub restored-eq : (r : Registers) → restored s ra r ≡ s.registers r
  restored-eq eax =
      word_at-overlay-Apart (pushed s) ra (word s) (top s) e.context_stack
      ∙ word_at-overlay s.bytes (top s) (s.registers eax) e.eax_word
  restored-eq esp = omega (arith, e.stack, e.stack_word)
  restored-eq r = refl

  -- The processor behind the four instructions.
  abbrev pub begun : Processor
  begun = record { registers = restored s ra; eip = s.eip + hooker_offset; bytes = stored s ra }
