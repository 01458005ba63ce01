-- ===== src/Hook/Object/Head.antt =====
-- The head of the trampoline, as `install` writes it.
use memwrapper.Base.{ℕ, ◌+◌, ◌≤◌, ◌≡◌, sym, ap, ◌∙◌, true, within, Apart, List, ◌++◌, arith}
use memwrapper.Machine.{Bytes, World, slice, overlay}
use memwrapper.Machine.Overlay.{slice_parts, slice-ext, overlay_at}
use memwrapper.Windows.{Windows}
use memwrapper.Detail.{get_relative_address, jump_oplen, byteof}
use memwrapper.Detail.Bytes.{length-byteof}
use memwrapper.Allocator.{BasicAllocator, now}
use memwrapper.Allocator.Appends.{Appends, Appends-and_then, HasRoom}
use memwrapper.Asm.{eax, esp}
use memwrapper.Asm.Appends.{
  jmp-Appends_at, push-Appends, pop-Appends, mov_load-Appends, mov_store-Appends,
}
use memwrapper.Asm.Encoding.{jmp_bytes, push_bytes, pop_bytes, mov_load_bytes, mov_store_bytes}
use memwrapper.Hook.Disassembler.{Disassembler}
use memwrapper.Hook.Object.{Memhook, write_head, hooker_offset}

-- push eax; mov eax, [esp + 4]; mov [return_address], eax; pop eax; jmp hooker, for a cursor.
abbrev pub head_bytes : (return_address hooker cursor : ℕ) → List ℕ
head_bytes return_address hooker cursor =
    push_bytes eax
    ++ (mov_load_bytes eax esp 4
        ++ (mov_store_bytes return_address eax
            ++ (pop_bytes eax
                ++ jmp_bytes (get_relative_address hooker (cursor + hooker_offset) jump_oplen))))

-- Where the four instructions before the jump stand.
pub record Begins (f : Bytes) (return_address c : ℕ) : Type 0 where
  pub pushes : slice f c 1 ≡ push_bytes eax
  pub loads : slice f (c + 1) 4 ≡ mov_load_bytes eax esp 4
  pub stores : slice f (c + 5) 5 ≡ mov_store_bytes return_address eax
  pub pops : slice f (c + 10) 1 ≡ pop_bytes eax

-- Where the five instructions of the head stand.
pub head_parts :
    (f : Bytes) (return_address hooker c : ℕ)
    → slice f c 16 ≡ head_bytes return_address hooker c
    → Begins f return_address c
      × (slice f (c + hooker_offset) 5
          ≡ jmp_bytes (get_relative_address hooker (c + hooker_offset) jump_oplen))
unfolding byteof
head_parts f ra hooker c h =
    let jump : List ℕ = jmp_bytes (get_relative_address hooker (c + hooker_offset) jump_oplen) in
    let (p, q) =
      slice_parts f c (push_bytes eax)
        (mov_load_bytes eax esp 4 ++ (mov_store_bytes ra eax ++ (pop_bytes eax ++ jump))) h in
    let (l, q') =
      slice_parts f (c + 1) (mov_load_bytes eax esp 4)
        (mov_store_bytes ra eax ++ (pop_bytes eax ++ jump)) q in
    let (m, q'') = slice_parts f (c + 1 + 4) (mov_store_bytes ra eax) (pop_bytes eax ++ jump) q' in
    let (o, j) = slice_parts f (c + 1 + 4 + 5) (pop_bytes eax) jump q'' in
    (
      record {
        pushes = p;
        loads = l;
        stores = ap (λ k. slice f k 5) (omega arith) ∙ m;
        pops = ap (λ k. slice f k 1) (omega arith) ∙ o;
      },
      ap (λ k. slice f k 5) (omega arith) ∙ j,
    )

-- They stand in all memories that agree on the first eleven bytes.
pub Begins-ext :
    (f g : Bytes) (ra c : ℕ)
    → ((a : ℕ) → within c hooker_offset a ≡ true → f a ≡ g a)
    → Begins f ra c
    → Begins g ra c
Begins-ext f g ra c agree h = record {
  pushes = same c 1 (omega arith) (omega arith) ∙ h.pushes;
  loads = same (c + 1) 4 (omega arith) (omega arith) ∙ h.loads;
  stores = same (c + 5) 5 (omega arith) (omega arith) ∙ h.stores;
  pops = same (c + 10) 1 (omega arith) (omega arith) ∙ h.pops;
}
  where
    same : (q n : ℕ) → c ≤ q → q + n ≤ c + hooker_offset → slice g q n ≡ slice f q n
    same q n lo hi = slice-ext g f q q n λ i lt. sym (agree (q + i) (ground (arith, lo, hi)))

-- A write apart from the code leaves the instructions where they are.
pub Begins-overlay :
    (f : Bytes) (ra c p v : ℕ)
    → Apart p 4 c 16
    → Begins f ra c
    → Begins (overlay f p (byteof 4 v)) ra c
Begins-overlay f ra c p v apart =
    Begins-ext f (overlay f p (byteof 4 v)) ra c
      λ a i. ground (arith, overlay_at f p (byteof 4 v) a, length-byteof 4 v)

module _ (win : Windows) (d : Disassembler) where
  open win use {Kernel}

  -- `write_head` writes 16 bytes: the jump to the hooker stands at `hooker_offset`, and what
  -- follows the head at `original_offset`.
  pub write_head-Appends :
      (h : Memhook) (a : BasicAllocator) (w : World Kernel)
      → HasRoom win w.kernel a 16
      → Appends (head_bytes h.return_address h.hooker (now a)) a w (write_head win d h a w)
  unfolding write_head byteof
  write_head-Appends h a w room =
      Appends-and_then (push_bytes eax) loads a w _
        (push-Appends win a w eax (part _ 1 (omega arith)))
        (Appends-and_then (mov_load_bytes eax esp 4) stores _ _ _
          (mov_load-Appends win _ _ (part _ 4 (omega arith)))
          (Appends-and_then (mov_store_bytes h.return_address eax) pops _ _ _
            (mov_store-Appends win _ _ h.return_address (part _ 5 (omega arith)))
            (Appends-and_then (pop_bytes eax) jump _ _ _
              (pop-Appends win _ _ eax (part _ 1 (omega arith)))
              (jmp-Appends_at win _ _ h.hooker (now a + hooker_offset) (omega arith)
                (part _ 5 (omega arith))))))
    where
      jump : List ℕ
      jump = jmp_bytes (get_relative_address h.hooker (now a + hooker_offset) jump_oplen)

      pops : List ℕ
      pops = pop_bytes eax ++ jump

      stores : List ℕ
      stores = mov_store_bytes h.return_address eax ++ pops

      loads : List ℕ
      loads = mov_load_bytes eax esp 4 ++ stores

      part : (o n : ℕ) → o + n ≤ a.offset + 16 → HasRoom win w.kernel (record a { offset = o }) n
      part o n le = record {
        valid = record { in_region = omega (arith, room.room); word = room.valid.word };
        room = omega (arith, room.room);
        writable = room.writable;
      }

  -- The same, where the cursor is known as another expression.
  pub write_head-Appends_at :
      (h : Memhook) (cursor : ℕ) (a : BasicAllocator) (w : World Kernel)
      → cursor ≡ now a
      → HasRoom win w.kernel a 16
      → Appends (head_bytes h.return_address h.hooker cursor) a w (write_head win d h a w)
  write_head-Appends_at h cursor a w e room = rw e (write_head-Appends h a w room)
