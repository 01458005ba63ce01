-- ===== src/Hook/Relocation/Rewritten.antt =====
-- What generate_trampoline_instructions writes, as a relation between the instructions and the
-- bytes of the trampoline.
use memwrapper.Base.{
  ℕ, zero, suc, ◌+◌, ◌-◌, ◌*◌, ◌≤◌, ◌<◌, ◌≡◌, ◌⊎◌, inl, inr, refl, true, false, List, [], ◌++◌,
  arith, length, length-append, leb, ◌==◌, Bool-cases,
}
use memwrapper.Machine.{Bytes, slice}
use memwrapper.Machine.Overlay.{length-slice}
use memwrapper.Detail.{get_relative_address, jump_oplen, byteof}
use memwrapper.Asm.Encoding.{jmp_bytes}
use memwrapper.Hook.Disassembler.{Hde32s, Disassembler, DisassemblerLaws, has, f_error}
use memwrapper.Hook.Relocation.{Piece, structure, original, oplen, is_jmp, is_jcc, relocate}

-- The bytes of a piece for an instruction of `len` bytes at `p`.
unfoldable pub piece_bytes : (f : Bytes) (p len : ℕ) → Piece → List ℕ
piece_bytes f p len (structure bs) = bs
piece_bytes f p len original = slice f p len

pub length-piece_bytes :
    (f : Bytes) (p len : ℕ) (piece : Piece) → length (piece_bytes f p len piece) ≡ oplen piece len
unfolding piece_bytes
length-piece_bytes f p len (structure bs) = refl
length-piece_bytes f p len original = length-slice f p len

-- What is written for an instruction has from 1 to 15 bytes.
oplen-relocate-le :
    (p cursor : ℕ) (hs : Hde32s)
    → 1 ≤ hs.len
    → hs.len ≤ 15
    → (1 ≤ oplen (relocate p cursor hs) hs.len) × (oplen (relocate p cursor hs) hs.len ≤ 15)
unfolding relocate byteof
oplen-relocate-le p cursor hs lo hi = elim (Bool-cases (hs.opcode == 0xe8)) [
  | inl call ↦ rw call (omega arith, omega arith)
  | inr no_call ↦ elim (Bool-cases (is_jmp hs)) [
    | inl jmp ↦ rw (no_call, jmp) (omega arith, omega arith)
    | inr no_jmp ↦ elim (Bool-cases (is_jcc hs)) [
      | inl jcc ↦ rw (no_call, no_jmp, jcc) (omega arith, omega arith)
      | inr no_jcc ↦ rw (no_call, no_jmp, no_jcc) (lo, hi)
    ]
  ]
]

module _ (d : Disassembler) (f : Bytes) where
  -- What the instruction at `p` becomes at the cursor.
  abbrev pub rewritten_at : (p cursor : ℕ) → List ℕ
  rewritten_at p cursor = piece_bytes f p (d f p).len (relocate p cursor (d f p))

  -- With `step` bytes written of `size`, the instructions from `p` on, which have `span` bytes, or
  -- as many as the engine reads if one is refused, become the list at the cursor: one instruction after another, until `size` is reached and
  -- a jump behind them closes the list, or an instruction is refused.
  pub data Rewritten (size : ℕ) : (p step cursor span : ℕ) → List ℕ → Type 0 where
    closed :
        {p step cursor span : ℕ}
        → size ≤ step
        → span ≡ 0
        → Rewritten size p step cursor span (jmp_bytes (get_relative_address p cursor jump_oplen))
    refused :
        {p step cursor span : ℕ}
        → step < size
        → has f_error (d f p) ≡ true
        → span ≡ (d f p).extent
        → Rewritten size p step cursor span []
    next :
        {p step cursor span m : ℕ} {rest : List ℕ}
        → step < size
        → has f_error (d f p) ≡ false
        → Rewritten size
            (p + (d f p).len)
            (step + length (rewritten_at p cursor))
            (cursor + length (rewritten_at p cursor))
            m
            rest
        → span ≡ (d f p).len + m
        → Rewritten size p step cursor span (rewritten_at p cursor ++ rest)

  -- The first instruction is read, with the byte behind it.
  pub extent-le_span :
      DisassemblerLaws d
      → (size p cursor span : ℕ) (bs : List ℕ) → 0 < size
      → Rewritten size p 0 cursor span bs
      → (d f p).extent ≤ span + 1
  extent-le_span laws size p cursor span _ pos (closed over z) = absurd (omega (arith, pos, over))
  extent-le_span laws size p cursor span _ pos (refused lt bad z) = omega (arith, z)
  extent-le_span laws size p cursor span _ pos (next lt good r whole) =
      omega (arith, laws.extent-len f p good, whole)

  pub length-rewritten_at :
      DisassemblerLaws d
      → (p cursor : ℕ)
      → (1 ≤ length (rewritten_at p cursor)) × (length (rewritten_at p cursor) ≤ 15)
  length-rewritten_at laws p cursor =
      let (lo, hi) = oplen-relocate-le p cursor (d f p) (laws.len_pos f p) (laws.len-le f p) in
      let e = length-piece_bytes f p (d f p).len (relocate p cursor (d f p)) in
      (omega (arith, e, lo), omega (arith, e, hi))

  -- Few bytes that lead over the size, or not over the bound.
  abbrev Bounded : (size step : ℕ) → List ℕ → Type 0
  Bounded size step bs = (length bs ≤ 5) ⊎ (step + length bs ≤ size + 19)

  Bounded-append :
      (size step : ℕ) (bs rest : List ℕ)
      → step < size
      → length bs ≤ 15
      → Bounded size (step + length bs) rest
      → Bounded size step (bs ++ rest)
  Bounded-append size step bs rest lt le (inl few) =
      inr (omega (arith, length-append bs rest, lt, le, few))
  Bounded-append size step bs rest lt le (inr bound) =
      inr (omega (arith, length-append bs rest, bound))

  length-Bounded :
      DisassemblerLaws d
      → (size p step cursor span : ℕ) (bs : List ℕ) → Rewritten size p step cursor span bs
      → Bounded size step bs
  unfolding byteof
  length-Bounded laws size p step cursor span _ (closed over z) = inl (omega arith)
  length-Bounded laws size p step cursor span _ (refused lt bad z) = inl (omega arith)
  length-Bounded laws size p step cursor span _ (next {m} {rest} lt good r whole) =
      Bounded-append size step (rewritten_at p cursor) rest lt (length-rewritten_at laws p cursor).1
        (length-Bounded laws size (p + (d f p).len) (step + length (rewritten_at p cursor))
          (cursor + length (rewritten_at p cursor)) m rest r)

  -- From the start there are `size + 19` bytes at most.
  pub length-Rewritten :
      DisassemblerLaws d
      → (size p cursor span : ℕ) (bs : List ℕ) → Rewritten size p 0 cursor span bs
      → length bs ≤ size + 19
  length-Rewritten laws size p cursor span bs r =
      omega (arith, length-Bounded laws size p 0 cursor span bs r)

  rewritten_within :
      DisassemblerLaws d
      → (fuel size p step cursor : ℕ) → size < step + fuel
      → (span : ℕ) × (bs : List ℕ) × Rewritten size p step cursor span bs
        × (span ≤ 15 * (size - step) + 17)
  rewritten_within laws zero size p step cursor enough =
      (0, _, closed (omega arith) refl, omega arith)
  rewritten_within laws (suc fuel) size p step cursor enough = elim (Bool-cases (leb size step)) [
    | inl over ↦ (0, _, closed (ground arith) refl, omega arith)
    | inr running ↦
        let lt : step < size = ground (arith, running) in
        elim (Bool-cases (has f_error (d f p))) [
          | inl bad ↦
              ((d f p).extent, _, refused lt bad refl, omega (arith, lt, laws.extent-le f p))
          | inr good ↦
              let written : List ℕ = rewritten_at p cursor in
              let (lo, _) = length-rewritten_at laws p cursor in
              let (m, rest, r, le) =
                rewritten_within laws fuel size (p + (d f p).len) (step + length written)
                  (cursor + length written) (omega (arith, lo)) in
              (
                (d f p).len + m,
                written ++ rest,
                next lt good r refl,
                omega (arith, le, lo, lt, laws.len-le f p),
              )
        ]
  ]

  -- Whatever the instructions are, they become a list, for which at most 15 bytes are read for
  -- each byte of `size`, and 17 more when an instruction is refused.
  pub rewritten_exists :
      DisassemblerLaws d
      → (size p cursor : ℕ)
      → (span : ℕ) × (bs : List ℕ) × Rewritten size p 0 cursor span bs × (span ≤ 15 * size + 17)
  rewritten_exists laws size p cursor =
      let (span, bs, r, le) = rewritten_within laws (suc size) size p 0 cursor (omega arith) in
      (span, bs, r, omega (arith, le))
