-- ===== src/Hook/Relocation/Writes.antt =====
-- generate_trampoline_instructions writes what the instructions become.
use memwrapper.Base.{
  ℕ, zero, suc, ◌+◌, ◌≤◌, ◌<◌, ◌≡◌, ap, sym, ◌∙◌, false, true, some, List, ◌++◌, arith, Apart,
  length, length-append, leb,
}
use mathlib.Core.Path.{subst}
use memwrapper.Machine.{Bytes, World, overlay}
use memwrapper.Machine.Overlay.{slice-ext, length-slice, overlay_at}
use memwrapper.Machine.Run.{CanRead, CanRead-drop}
use memwrapper.Windows.{Windows, cpu}
use memwrapper.Detail.{byteof}
use memwrapper.Allocator.{BasicAllocator, now}
use memwrapper.Allocator.Writes.{advance}
use memwrapper.Allocator.Appends.{
  Appends, Appends-and_then, written_at, HasRoom, HasRoom-le, HasRoom-advance, db_bytes-Appends,
  db_object-Appends,
}
use memwrapper.Asm.Appends.{jmp-Appends_at}
use memwrapper.Hook.Disassembler.{
  Hde32s, Disassembler, DisassemblerLaws, disassemble, disassemble-returns,
}
use memwrapper.Hook.Relocation.{Piece, structure, original, oplen, relocate, emit, generate}
use memwrapper.Hook.Relocation.Rewritten.{
  Rewritten, closed, refused, next, rewritten_at, piece_bytes, length-piece_bytes,
  length-rewritten_at,
}

-- `f` and `g` agree on `n` bytes, and on those that the disassembler may read behind them.
abbrev pub Agree : (f g : Bytes) (p n : ℕ) → Type 0
Agree f g p n = (i : ℕ) → i < n + 32 → f (p + i) ≡ g (p + i)

Agree-overlay :
    (g f : Bytes) (p n k m q : ℕ) (bs : List ℕ)
    → n ≡ k + m
    → Agree g f p n
    → Apart p (n + 32) q (length bs)
    → Agree (overlay g q bs) f (p + k) m
Agree-overlay g f p n k m q bs e agree apart i lt =
    let outside : overlay g q bs (p + k + i) ≡ g (p + k + i) =
      ground (arith, overlay_at g q bs (p + k + i), apart) in
    outside
    ∙ ap g {y = p + (k + i)} (omega arith)
    ∙ agree (k + i) (omega arith)
    ∙ ap f (omega arith)

module _ (win : Windows) (d : Disassembler) (laws : DisassemblerLaws d) where
  open win use {Kernel}

  emit-Appends :
      (f : Bytes) (piece : Piece) (p len : ℕ) (a : BasicAllocator) (w : World Kernel)
      → ((i : ℕ) → i < len → w.bytes (p + i) ≡ f (p + i))
      → HasRoom win w.kernel a (length (piece_bytes f p len piece))
      → CanRead (cpu win) w.kernel p len
      → Apart p len a.code a.size
      → Appends (piece_bytes f p len piece) a w (emit win d piece p len a w)
  unfolding emit piece_bytes
  emit-Appends f (structure bs) p len a w agree room r apart = db_bytes-Appends win bs a w room
  emit-Appends f original p len a w agree room r apart =
      subst (λ bs. Appends bs a w (emit win d original p len a w))
        (slice-ext w.bytes f p p len agree)
        (db_object-Appends win p len a w
          (HasRoom-le win a len _ (omega (arith, length-slice f p len)) room) r apart)

  pub generate-Appends :
      (f : Bytes) (fuel size p step cursor span : ℕ) (bs : List ℕ) (a : BasicAllocator)
      (w : World Kernel)
      → Rewritten d f size p step cursor span bs
      → 0 < fuel
      → size < step + fuel
      → cursor ≡ now a
      → Agree w.bytes f p span
      → HasRoom win w.kernel a (length bs)
      → CanRead (cpu win) w.kernel p (span + 1)
      → Apart p (span + 32) a.code a.size
      → Appends bs a w (generate win d fuel size p step a w)
  unfolding generate overlay byteof
  generate-Appends f zero size p step cursor span bs a w rew pos enough c agree room r apart =
      absurd (omega arith)
  generate-Appends f (suc fuel) size p step cursor span _ a w (closed over z) pos enough c agree
        room r apart =
      rw ended (jmp-Appends_at win a w p cursor c room)
    where
      ended : leb size step ≡ true
      ended = ground arith
  generate-Appends f (suc fuel) size p step cursor span _ a w (refused lt bad z) pos enough c agree
        room r apart =
      rw (running, read, same, bad) (ap (λ j. some (record a { offset = j }, w)) (omega arith))
    where
      running : leb size step ≡ false
      running = ground arith

      same : d w.bytes p ≡ d f p
      same = laws.local w.bytes f p (λ j l. agree j (omega arith))

      read : disassemble win d p w ≡ some (d w.bytes p, w)
      read =
          disassemble-returns win d p w
            (λ j l. r j (omega (arith, ap (λ (hs : Hde32s). hs.extent) same, z, l)))
  generate-Appends f (suc fuel) size p step cursor span _ a w (next {m} {rest} lt good rew whole)
        pos enough c agree room r apart =
      rw (running, read, same, good, here, counted)
        (Appends-and_then bs rest a w (generate win d fuel size (p + len) (step + length bs))
          (emit-Appends f (relocate p cursor (d f p)) p len a w
            (λ j l. agree j (omega (arith, whole)))
            (HasRoom-le win a (length bs) _ (omega (arith, both)) room)
            (λ j l. r j (omega (arith, whole))) (omega (arith, apart, whole)))
          (generate-Appends f fuel size (p + len) (step + length bs) (cursor + length bs) m rest
            (advance a (length bs)) (written_at w a bs) rew (omega (arith, lt, enough))
            (omega (arith, some_bytes.0, enough)) (omega (arith, c))
            (Agree-overlay w.bytes f p span len m (now a) bs whole agree
              (ground (arith, apart, both, room.room)))
            (HasRoom-advance win a (length bs) (length rest)
              (HasRoom-le win a _ _ (omega (arith, both)) room))
            (CanRead-drop (cpu win) w.kernel p (span + 1) len (m + 1) (omega (arith, whole)) r)
            (omega (arith, apart, whole))))
    where
      len : ℕ
      len = (d f p).len

      bs : List ℕ
      bs = rewritten_at d f p cursor

      running : leb size step ≡ false
      running = ground arith

      same : d w.bytes p ≡ d f p
      same = laws.local w.bytes f p (λ j l. agree j (omega arith))

      read : disassemble win d p w ≡ some (d w.bytes p, w)
      read = disassemble-returns win d p w (λ j l.
          r j (
            omega
              (arith, ap (λ (hs : Hde32s). hs.extent) same, laws.extent-len f p good, whole, l)))

      here : relocate p (now a) (d f p) ≡ relocate p cursor (d f p)
      here = ap (λ k. relocate p k (d f p)) (sym c)

      counted : oplen (relocate p cursor (d f p)) (d f p).len ≡ length (rewritten_at d f p cursor)
      counted = sym (length-piece_bytes f p (d f p).len (relocate p cursor (d f p)))

      both : length (bs ++ rest) ≡ length bs + length rest
      both = length-append bs rest

      some_bytes : (1 ≤ length bs) × (length bs ≤ 15)
      some_bytes = length-rewritten_at d f laws p cursor
