-- ===== src/Hook/Relocation/Copies.antt =====
-- generate_trampoline_instructions on instructions that need no rewriting.
use memwrapper.Base.{ℕ, ◌+◌, ◌≤◌, ◌≡◌, refl, ap, sym, ◌∙◌, false, List, ◌++◌, arith, length, ◌==◌}
use mathlib.Core.Path.{subst}
use mathlib.Core.List.{append_assoc}
use memwrapper.Machine.{Bytes, slice}
use memwrapper.Machine.Overlay.{slice-add, length-slice}
use memwrapper.Detail.{get_relative_address, jump_oplen}
use memwrapper.Asm.Encoding.{jmp_bytes}
use memwrapper.Hook.Disassembler.{Hde32s, Disassembler, DisassemblerLaws, has, f_error}
use memwrapper.Hook.Relocation.{is_jmp, is_jcc, relocate, original}
use memwrapper.Hook.Relocation.Rewritten.{Rewritten, closed, next, rewritten_at, piece_bytes}

-- No call and no jump with a relative target.
pub record IsPlain (hs : Hde32s) : Type 0 where
  pub accepted : has f_error hs ≡ false
  pub no_call : (hs.opcode == 0xe8) ≡ false
  pub no_jmp : is_jmp hs ≡ false
  pub no_jcc : is_jcc hs ≡ false

-- The `n` bytes from `p` on are whole instructions of that kind.
pub data PlainListing (d : Disassembler) (f : Bytes) : ℕ → ℕ → Type 0 where
  nil : {p n : ℕ} → n ≡ 0 → PlainListing d f p n
  cons :
      {p n m : ℕ}
      → IsPlain (d f p)
      → PlainListing d f (p + (d f p).len) m
      → n ≡ (d f p).len + m
      → PlainListing d f p n

pub relocate-IsPlain : (p cursor : ℕ) (hs : Hde32s) → IsPlain hs → relocate p cursor hs ≡ original
unfolding relocate
relocate-IsPlain p cursor hs i = rw (i.no_call, i.no_jmp, i.no_jcc)

module _ (d : Disassembler) (laws : DisassemblerLaws d) (f : Bytes) where
  rewritten_at-IsPlain :
      (p cursor : ℕ) → IsPlain (d f p) → rewritten_at d f p cursor ≡ slice f p (d f p).len
  unfolding piece_bytes
  rewritten_at-IsPlain p cursor i = rw (relocate-IsPlain p cursor (d f p) i)

  -- Plain instructions of `size` bytes become themselves and a jump to what is behind them.
  pub plain-Rewritten :
      (size step n p back cursor end : ℕ)
      → PlainListing d f p n
      → step + n ≡ size
      → back ≡ p + n
      → end ≡ cursor + n
      → Rewritten d f size p step cursor n
          (slice f p n ++ jmp_bytes (get_relative_address back end jump_oplen))
  unfolding slice
  plain-Rewritten size step n p back cursor end (nil z) e b c =
      rw (z, to_p, there) (closed (omega arith) refl)
    where
      to_p : back ≡ p
      to_p = omega arith

      there : end ≡ cursor
      there = omega arith
  plain-Rewritten size step n p back cursor end (cons {m} i l whole) e b c =
      subst (Rewritten d f size p step cursor n) bytes (
        next (omega (arith, pos)) i.accepted
          (plain-Rewritten size (step + length (rewritten_at d f p cursor)) m (p + len) back
            (cursor + length (rewritten_at d f p cursor)) end l (omega (arith, count)) (omega arith)
            (omega (arith, count)))
          whole)
    where
      len : ℕ
      len = (d f p).len

      pos : 1 ≤ (d f p).len
      pos = laws.len_pos f p

      count : length (rewritten_at d f p cursor) ≡ len
      count = ap length (rewritten_at-IsPlain p cursor i) ∙ length-slice f p len

      jump : List ℕ
      jump = jmp_bytes (get_relative_address back end jump_oplen)

      bytes : rewritten_at d f p cursor ++ (slice f (p + len) m ++ jump) ≡ slice f p n ++ jump
      bytes =
          ap (λ bs. bs ++ (slice f (p + len) m ++ jump)) (rewritten_at-IsPlain p cursor i)
          ∙ sym (append_assoc (slice f p len) (slice f (p + len) m) jump)
          ∙ ap (λ bs. bs ++ jump) (sym (slice-add f p len m))
          ∙ ap (λ k. slice f p k ++ jump) (sym whole)
