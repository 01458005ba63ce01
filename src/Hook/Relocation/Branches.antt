-- ===== src/Hook/Relocation/Branches.antt =====
-- Rewritten instructions branch as the original ones do.
use Prim.Native.Nat.{bit_and}
use memwrapper.Base.{
  ℕ, ◌+◌, ◌%◌, ◌<◌, ◌≤◌, ◌≡◌, ◌↔◌, ◌⊎◌, inl, inr, refl, ap, ◌∙◌, Bool, true, false, Option, none,
  some, List, [], ◌∷◌, arith, add32, leb, ltb, ◌&&◌, ◌==◌, if◌then◌else◌, Bool-cases, word_mod,
}
use memwrapper.Base.Nibbles.{short_jcc, long_jcc, near_or_short}
use memwrapper.Detail.{restore_absolute_address, byteof}
use memwrapper.Detail.Bytes.{number, number-byteof}
use memwrapper.Hook.Disassembler.{Hde32s, imm8}
use memwrapper.Hook.Relocation.{
  Piece, structure, original, call_relative, jmp_relative, jcc_relative, is_jmp, is_jcc, relocate,
}
use memwrapper.Hook.Relocation.Targets.{
  short_target, near_target, relocate-call, relocate-jmp, relocate-jcc,
}

-- What a relative branch does, and where it leads.
pub data Kind : Type 0 where
  calls : Kind
  jumps : Kind
  jumps_if : (condition : ℕ) → Kind
  -- LOOPNE, LOOPE, LOOP and JECXZ, which depend on ecx.
  loops : (opcode : ℕ) → Kind

pub record Branch : Type 0 where
  pub kind : Kind
  pub target : ℕ

abbrev pub is_short_jcc : Hde32s → Bool
is_short_jcc hs = leb 0x70 hs.opcode && ltb hs.opcode 0x80

abbrev pub is_long_jcc : Hde32s → Bool
is_long_jcc hs = (hs.opcode == 0x0f) && (leb 0x80 hs.opcode2 && ltb hs.opcode2 0x90)

abbrev pub is_loop : Hde32s → Bool
is_loop hs = leb 0xe0 hs.opcode && ltb hs.opcode 0xe4

-- What an instruction at `p` does on the processor, if it is a relative branch: E8, E9, EB, 70 to
-- 7F, 0F 80 to 0F 8F, and E0 to E3 in the Intel manual; XBEGIN is newer than the engine.
unfoldable pub branch : (p : ℕ) → Hde32s → Option Branch
branch p hs =
    if hs.opcode == 0xe8
    then some (record { kind = calls; target = near_target p hs })
    else if hs.opcode == 0xe9
    then some (record { kind = jumps; target = near_target p hs })
    else if hs.opcode == 0xeb
    then some (record { kind = jumps; target = short_target p hs })
    else if is_short_jcc hs
    then some (record { kind = jumps_if (hs.opcode % 16); target = short_target p hs })
    else if is_long_jcc hs
    then some (record { kind = jumps_if (hs.opcode2 % 16); target = near_target p hs })
    else if is_loop hs
    then some (record { kind = loops hs.opcode; target = short_target p hs })
    else none

-- The branch that its bytes at the cursor are, in the forms with 32 bits.
unfoldable pub read_branch : (cursor : ℕ) → List ℕ → Option Branch
read_branch cursor [] = none
read_branch cursor (b ∷ []) = none
read_branch cursor (b ∷ c ∷ bs) =
    if b == 0xe8
    then some (record { kind = calls; target = add32 (add32 cursor 5) (number (c ∷ bs)) })
    else if b == 0xe9
    then some (record { kind = jumps; target = add32 (add32 cursor 5) (number (c ∷ bs)) })
    else if (b == 0x0f) && (leb 0x80 c && ltb c 0x90)
    then some (record { kind = jumps_if (c % 16); target = add32 (add32 cursor 6) (number bs) })
    else none

-- The piece for the cursor keeps the branch; what is no branch is copied.
abbrev pub Keeps : (cursor : ℕ) → Option Branch → Piece → Type 0
Keeps cursor none piece = piece ≡ original
Keeps cursor (some b) piece =
    (bs : List ℕ) × (piece ≡ structure bs) × (read_branch cursor bs ≡ some b)

read_operand :
    (operand cursor n : ℕ)
    → operand < word_mod
    → add32 (add32 cursor n) (number (byteof 4 operand)) ≡ restore_absolute_address operand cursor n
unfolding restore_absolute_address
read_operand operand cursor n lt =
    ap (add32 (add32 cursor n)) (number-byteof 4 operand lt) ∙ omega arith

module _ (p cursor : ℕ) (hs : Hde32s) where
  call-Keeps : hs.opcode ≡ 0xe8 → hs.len ≡ 5 → Keeps cursor (branch p hs) (relocate p cursor hs)
  unfolding branch read_branch byteof
  call-Keeps e l =
      let (operand, lt, r, t) = relocate-call p cursor hs e l in
      rw (ap (λ o. o == 0xe8) e) (
        call_relative operand,
        r,
        ap (λ k. some (record { kind = calls; target = k })) (read_operand operand cursor 5 lt ∙ t),
      )

  jmp-Keeps :
      (target : ℕ)
      → (if hs.opcode == 0xeb then short_target p hs else near_target p hs) ≡ target
      → (hs.opcode ≡ 0xe9) ⊎ ((hs.opcode ≡ 0xeb) × (imm8 hs < 128))
      → Keeps cursor (some (record { kind = jumps; target = target })) (relocate p cursor hs)
  unfolding read_branch byteof
  jmp-Keeps target led e =
      let (operand, lt, r, t) = relocate-jmp p cursor hs e in
      (
        jmp_relative operand,
        r,
        ap (λ k. some (record { kind = jumps; target = k }))
            (read_operand operand cursor 5 lt ∙ t ∙ led),
      )

  jcc-Keeps :
      (condition target : ℕ)
      → (if hs.opcode == 0x0f then hs.opcode2 else hs.opcode) ≡ condition
      → (if hs.opcode == 0x0f then near_target p hs else short_target p hs) ≡ target
      → ((0x70 ≤ hs.opcode) × (hs.opcode < 0x80) × (imm8 hs < 128))
        ⊎ ((hs.opcode ≡ 0x0f) × (0x80 ≤ hs.opcode2) × (hs.opcode2 < 0x90))
      → Keeps cursor
          (some (record { kind = jumps_if (condition % 16); target = target }))
          (relocate p cursor hs)
  unfolding read_branch byteof
  jcc-Keeps condition target c led e =
      let (operand, lt, r, t) = relocate-jcc p cursor hs e in
      let opcode2 : ℕ = 0x80 + condition % 16 in
      let range : (leb 0x80 opcode2 && ltb opcode2 0x90) ≡ true = ground arith in
      let nibble : opcode2 % 16 ≡ condition % 16 = omega arith in
      (
        jcc_relative opcode2 operand,
        r ∙ ap (λ k. structure (jcc_relative (0x80 + k % 16) operand)) c,
        rw (range, nibble)
            (ap (λ k. some (record { kind = jumps_if (condition % 16); target = k }))
              (read_operand operand cursor 6 lt ∙ t ∙ led)),
      )

  -- What is no branch is copied.
  other-Keeps :
      hs.opcode < 256
      → (hs.opcode2 ≡ 0) ⊎ ((hs.opcode ≡ 0x0f) × (hs.opcode2 < 256))
      → (hs.opcode == 0xe8) ≡ false
      → (hs.opcode == 0xe9) ≡ false
      → (hs.opcode == 0xeb) ≡ false
      → is_short_jcc hs ≡ false
      → is_long_jcc hs ≡ false
      → relocate p cursor hs ≡ original
  unfolding relocate is_jmp is_jcc
  other-Keeps lt two call near short jcc long =
      rw (call, near_or_short hs.opcode lt, near, short, short_jcc hs.opcode lt, jcc, no_long two)
    where
      no_long :
          (hs.opcode2 ≡ 0) ⊎ ((hs.opcode ≡ 0x0f) × (hs.opcode2 < 256))
          → (bit_and hs.opcode2 0xf0 == 0x80) ≡ false
      no_long (inl e) = ap (λ o. bit_and o 0xf0 == 0x80) e
      no_long (inr (e, l)) = long_jcc hs.opcode2 l ∙ ground (arith, long)

  -- A branch that depends on ecx is copied, and leads where it did only from the same place.
  abbrev pub Missed : Type 0
  Missed =
      (is_loop hs ≡ true)
      × (relocate p cursor hs ≡ original)
      × ((short_target cursor hs ≡ short_target p hs) ↔ (cursor % word_mod ≡ p % word_mod))

  -- An instruction of bytes, of which the second opcode belongs to 0F, whose call has five bytes
  -- and whose short displacement is forward, is rewritten at every cursor to the same branch: a
  -- call, a jump or a jump on the same condition, to the same target; and what is no relative
  -- branch is copied as it is. The exceptions are LOOPNE, LOOPE, LOOP and JECXZ, E0 to E3: they are
  -- copied too, and the copy leads to the same target only from the same place.
  pub relocate-Keeps :
      hs.opcode < 256
      → (hs.opcode2 ≡ 0) ⊎ ((hs.opcode ≡ 0x0f) × (hs.opcode2 < 256))
      → (hs.opcode ≡ 0xe8 → hs.len ≡ 5)
      → ((hs.opcode ≡ 0xeb) ⊎ (is_short_jcc hs ≡ true) → imm8 hs < 128)
      → Keeps cursor (branch p hs) (relocate p cursor hs) ⊎ Missed
  unfolding branch
  relocate-Keeps lt two five forward = elim (Bool-cases (hs.opcode == 0xe8)) [
    | inl call ↦ inl (call-Keeps (ground (arith, call)) (five (ground (arith, call))))
    | inr no_call ↦ elim (Bool-cases (hs.opcode == 0xe9)) [
      | inl near ↦ inl (
          rw (no_call, near)
            (jmp-Keeps (near_target p hs) (ground (arith, near)) (inl (ground (arith, near)))))
      | inr no_near ↦ elim (Bool-cases (hs.opcode == 0xeb)) [
        | inl short ↦
            let e : hs.opcode ≡ 0xeb = ground (arith, short) in
            inl (
              rw (no_call, no_near, short)
                (jmp-Keeps (short_target p hs) (rw short refl) (inr (e, forward (inl e)))))
        | inr no_short ↦ elim (Bool-cases (is_short_jcc hs)) [
          | inl jcc ↦ inl (
              rw (no_call, no_near, no_short, jcc)
                (jcc-Keeps hs.opcode (short_target p hs) (ground (arith, jcc)) (ground (arith, jcc))
                  (inl (ground (arith, jcc), ground (arith, jcc), forward (inr jcc)))))
          | inr no_jcc ↦ elim (Bool-cases (is_long_jcc hs)) [
            | inl long ↦ inl (
                rw (no_call, no_near, no_short, no_jcc, long)
                  (jcc-Keeps hs.opcode2 (near_target p hs) (ground (arith, long))
                    (ground (arith, long))
                    (inr (ground (arith, long), ground (arith, long), ground (arith, long)))))
            | inr no_long ↦
                let copied : relocate p cursor hs ≡ original =
                  other-Keeps lt two no_call no_near no_short no_jcc no_long in
                elim (Bool-cases (is_loop hs)) [
                  | inl loop ↦ inr (loop, copied, short_target-eq_iff)
                  | inr no_loop ↦
                      inl (rw (no_call, no_near, no_short, no_jcc, no_long, no_loop) copied)
                ]
          ]
        ]
      ]
    ]
  ]
    where
      short_target-eq_iff :
          (short_target cursor hs ≡ short_target p hs) ↔ (cursor % word_mod ≡ p % word_mod)
      short_target-eq_iff = (λ e. omega (arith, e), λ e. omega (arith, e))
