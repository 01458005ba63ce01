-- ===== src/Hook/Object/Patched.antt =====
-- The jump that `install` writes at the hooked function.
use memwrapper.Base.{
  ℕ, ◌+◌, ◌-◌, ◌≤◌, ◌<◌, ◌≡◌, refl, sym, ap, ◌∙◌, true, false, List, [], ◌∷◌, ◌++◌, arith, length,
  replicate, add32, word_mod, ltb, Bool-cases, inl, inr, if◌then◌else◌, length-replicate,
}
use memwrapper.Machine.{Bytes, World, overlay, pure}
use memwrapper.Machine.Overlay.{overlay-append, overlay-cons_same}
use memwrapper.Machine.Returns
use memwrapper.Machine.Returns.{Returns, returns}
use memwrapper.Windows.{Windows, WindowsLaws}
use memwrapper.Detail.{get_relative_address, jump_oplen, byteof}
use memwrapper.Llmo.Unprotect.Scope.{Same-refl, Same-trans}
use memwrapper.Llmo.Operations.{fill_memory}
use memwrapper.Llmo.Operations.Kept.{IsOpen, IsOpen-Same, Kept, write_memory-Kept, fill_memory-Kept}
use memwrapper.Llmo.Operations.Open.{IsOpen-part}
use memwrapper.Allocator
use memwrapper.Allocator.{BasicAllocator}
use memwrapper.Asm.Encoding.{jmp_bytes}
use memwrapper.Hook.Disassembler.{Disassembler}
use memwrapper.Hook.Object.{Memhook, patch_hookee, jump_size, jump_opcode, nop_opcode}

-- A jump to `target` and `nop`s behind it: what stands at a hooked function of `size` bytes.
abbrev pub patch_bytes : (target hookee size : ℕ) → List ℕ
patch_bytes target hookee size =
    jmp_bytes (get_relative_address target hookee jump_oplen)
    ++ replicate (size - jump_size) nop_opcode

-- An opcode that is kept and the displacement to `target`, and `nop`s behind it: what stands at a
-- hooked call.
abbrev pub redirected_bytes : (opcode target hookee size : ℕ) → List ℕ
redirected_bytes opcode target hookee size =
    (opcode ∷ byteof 4 (get_relative_address target hookee jump_oplen))
    ++ replicate (size - jump_size) nop_opcode

pub length-redirected_bytes :
    (opcode target hookee size : ℕ)
    → jump_size ≤ size
    → length (redirected_bytes opcode target hookee size) ≡ size
unfolding byteof
length-redirected_bytes opcode target hookee size le =
    omega (arith, length-replicate {A = ℕ} (size - jump_size) nop_opcode)

module _ (win : Windows) (laws : WindowsLaws win) (d : Disassembler) where
  open win use {Kernel}

  -- `n` bytes of a range are written, and the rest is filled with `nop`.
  fill_rest-Kept :
      (p size n : ℕ) (f : Bytes) (bs : List ℕ) (w : World Kernel)
      → length bs ≡ n
      → n ≤ size
      → IsOpen win w.kernel p size
      → w.bytes ≡ overlay f p bs
      → Returns
          (Kept win w (λ _ g. g ≡ overlay f p (bs ++ replicate (size - n) nop_opcode)))
          ((if ltb n size then fill_memory win (p + n) nop_opcode (size - n) else pure tt) w)
  unfolding overlay
  fill_rest-Kept p size n f bs w l le o e = elim (Bool-cases (ltb n size)) [
    | inl more ↦ rw more (
        Returns.mono
          (fill_memory-Kept win laws (p + n) nop_opcode (size - n) w (
            IsOpen-part win laws p size (p + n) (size - n) o (omega arith) (omega arith)
              (ground arith)))
          λ _ v (e', s). (e' ∙ ap (λ g. overlay g (p + n) nops) e ∙ together, s))
    | inr none ↦ rw none (
        returns (
          e
              ∙ ap (λ k. overlay (overlay f p bs) (p + n) (replicate k nop_opcode)) {x = 0}
                  {y = size - n} (ground arith)
              ∙ together,
          Same-refl win w.kernel,
        ))
  ]
    where
      nops : List ℕ
      nops = replicate (size - n) nop_opcode

      together : overlay (overlay f p bs) (p + n) nops ≡ overlay f p (bs ++ nops)
      together =
          ap (λ k. overlay (overlay f p bs) (p + k) nops) (sym l) ∙ sym (overlay-append f p bs nops)

  -- `patch_hookee` writes the jump to the trampoline and fills what is left of the covered
  -- instructions.
  pub patch_hookee-Kept :
      (h : Memhook) (t : BasicAllocator) (w : World Kernel)
      → h.flags.call_instruction ≡ false
      → IsOpen win w.kernel h.hookee h.size
      → jump_size ≤ h.size
      → h.hookee + jump_size < word_mod
      → Returns
          (Kept win w
            (λ _ f. f ≡ overlay w.bytes h.hookee (patch_bytes (Allocator.begin t) h.hookee h.size)))
          (patch_hookee win d h t w)
  unfolding patch_hookee byteof overlay
  patch_hookee-Kept h t w plain o enough small =
      rw (plain, to_operand, to_nops)
        (Returns.bind
          (write_memory-Kept win laws h.hookee (jump_opcode ∷ []) w
            (part h.hookee 1 (omega arith) (omega arith) (omega arith)))
          λ _ u (e, s).
            Returns.bind
              (write_memory-Kept win laws (h.hookee + 1) operand u (
                IsOpen-Same win (h.hookee + 1) 4
                  (part (h.hookee + 1) 4 (omega arith) (omega arith) (omega arith)) s))
              λ _ v (e', s').
                let kept = Same-trans win s s' in
                Returns.mono
                  (fill_rest-Kept h.hookee h.size jump_size w.bytes (jump_opcode ∷ operand) v refl
                    enough (IsOpen-Same win h.hookee h.size o kept)
                    (e' ∙ ap (λ f. overlay f (h.hookee + 1) operand) e))
                  λ _ x (e'', s''). (e'', Same-trans win kept s''))
    where
      operand : List ℕ
      operand = byteof 4 (get_relative_address (Allocator.begin t) h.hookee jump_oplen)

      to_operand : add32 h.hookee 1 ≡ h.hookee + 1
      to_operand = omega arith

      to_nops : add32 h.hookee jump_size ≡ h.hookee + jump_size
      to_nops = omega arith

      part : (q m : ℕ) → h.hookee ≤ q → q + m ≤ h.hookee + h.size → 0 < m → IsOpen win w.kernel q m
      part q m lo hi pos = IsOpen-part win laws h.hookee h.size q m o lo hi pos

  -- At a call only the displacement is written over, and what is left of the instruction.
  pub patch_hookee-Kept_call :
      (h : Memhook) (t : BasicAllocator) (w : World Kernel)
      → h.flags.call_instruction ≡ true
      → IsOpen win w.kernel h.hookee h.size
      → jump_size ≤ h.size
      → h.hookee + jump_size < word_mod
      → Returns
          (Kept win w (λ _ f.
            f
            ≡ overlay w.bytes h.hookee
                (redirected_bytes (w.bytes h.hookee) (Allocator.begin t) h.hookee h.size)))
          (patch_hookee win d h t w)
  unfolding patch_hookee byteof
  patch_hookee-Kept_call h t w call o enough small =
      rw (call, to_operand, to_nops)
        (Returns.bind
          (write_memory-Kept win laws (h.hookee + 1) operand w (
            IsOpen-part win laws h.hookee h.size (h.hookee + 1) 4 o (omega arith) (omega arith)
              (omega arith)))
          λ _ v (e, s).
            Returns.mono
              (fill_rest-Kept h.hookee h.size jump_size w.bytes (w.bytes h.hookee ∷ operand) v refl
                enough (IsOpen-Same win h.hookee h.size o s)
                (e ∙ sym (overlay-cons_same w.bytes h.hookee operand)))
              λ _ x (e', s'). (e', Same-trans win s s'))
    where
      operand : List ℕ
      operand = byteof 4 (get_relative_address (Allocator.begin t) h.hookee jump_oplen)

      to_operand : add32 h.hookee 1 ≡ h.hookee + 1
      to_operand = omega arith

      to_nops : add32 h.hookee jump_size ≡ h.hookee + jump_size
      to_nops = omega arith
