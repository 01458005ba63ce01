-- ===== src/Asm/Emits.antt =====
-- Each method of asm_allocator puts at the cursor, if there is room, bytes that the processor reads
-- as the instruction that was meant.
use memwrapper.Base.{
  ℕ, ◌+◌, ◌≤◌, ◌<◌, ◌≡◌, ◌≢◌, ◌⊎◌, refl, sym, ap, ◌∙◌, some, List, [], ◌++◌, arith, length,
  word_mod, within, if◌then◌else◌, ◌==◌, Bool-cases, inl, inr,
}
use mathlib.Core.List.{append-nil}
use memwrapper.Machine.{World, slice}
use memwrapper.Machine.Overlay.{slice-overlay, overlay_at}
use memwrapper.Machine.Returns.{Returns, of_eq}
use memwrapper.Machine.Run.{CanWrite}
use memwrapper.Windows.{Windows, cpu}
use memwrapper.Detail.{get_relative_address, jump_oplen, byteof}
use memwrapper.Detail.Addresses.{get_relative_address-lt}
use memwrapper.Detail.Bytes.{length-byteof}
use memwrapper.Allocator.{BasicAllocator, now, db_bytes}
use memwrapper.Allocator.Appends.{HasRoom}
use memwrapper.Allocator.Writes.{IsValid, advance, db_bytes_fits}
use memwrapper.Asm.{Registers, ebp, is_esp, is_eax, jmp, push, pop, mov_load, mov_store}
use memwrapper.Asm.Decoder
use memwrapper.Asm.Decoder.{Instruction, decode, sign_extend}
use memwrapper.Asm.Encoding.{
  jmp_bytes, push_bytes, pop_bytes, mov_load_bytes, mov_store_bytes, jmp-db_bytes, push-db_bytes,
  pop-db_bytes, mov_load-db_bytes, mov_store-db_bytes, decode-jmp_bytes, decode-push_bytes,
  decode-mov_load_bytes, decode-mov_store_bytes,
}

module _ {K : Type 0} where
  -- The cursor has moved over the instruction, and no other byte has changed.
  abbrev pub Emitted : BasicAllocator → World K → Instruction → BasicAllocator → World K → Type 0
  Emitted a w i a' v =
      (n : ℕ) × (a' ≡ advance a n)
      × (decode (slice v.bytes (now a) n) ≡ some (i, []))
      × ((x : ℕ) → v.bytes x ≡ (if within (now a) n x then v.bytes x else w.bytes x))
      × (v.kernel ≡ w.kernel)

length-mov_load_bytes :
    (target source : Registers) (offset : ℕ) → length (mov_load_bytes target source offset) ≤ 4
length-mov_load_bytes target source offset = elim (Bool-cases (is_esp source)) [
  | inl e ↦ elim (Bool-cases (offset == 0)) [
    | inl d ↦ rw (e, d) (omega arith)
    | inr d ↦ rw (e, d) (omega arith)
  ]
  | inr e ↦ elim (Bool-cases (offset == 0)) [
    | inl d ↦ rw (e, d) (omega arith)
    | inr d ↦ rw (e, d) (omega arith)
  ]
]

length-mov_store_bytes :
    (address : ℕ) (source : Registers) → length (mov_store_bytes address source) ≤ 6
unfolding byteof
length-mov_store_bytes address source = elim (Bool-cases (is_eax source)) [
  | inl e ↦ rw e (omega arith)
  | inr e ↦ rw e (omega arith)
]

module _ (win : Windows) where
  open win use {Kernel}

  emitted :
      (bs : List ℕ) (i : Instruction) (a : BasicAllocator) (w : World Kernel)
      → decode (bs ++ []) ≡ some (i, [])
      → IsValid a
      → a.offset + length bs ≤ a.size
      → CanWrite (cpu win) w.kernel a.code a.size
      → Returns (Emitted a w i) (db_bytes win bs a w)
  emitted bs i a w d v fits c = of_eq (db_bytes_fits win bs a w v c fits) (
    length bs,
    refl,
    ap decode (slice-overlay w.bytes (now a) bs ∙ sym (append-nil bs)) ∙ d,
    λ x. ground (arith, overlay_at w.bytes (now a) bs x),
    refl,
  )

  -- With room for six bytes, `jmp` emits a jump by the displacement of its target from the cursor.
  pub jmp-Emitted :
      (to : ℕ) (a : BasicAllocator) (w : World Kernel)
      → HasRoom win w.kernel a 6
      → Returns
          (Emitted a w (Decoder.jump (get_relative_address to (now a) jump_oplen)))
          (jmp win to a w)
  jmp-Emitted to a w h = rw (jmp-db_bytes win to a) (
      emitted (jmp_bytes rel32) (Decoder.jump rel32) a w
        (decode-jmp_bytes rel32 [] (get_relative_address-lt to (now a) jump_oplen)) h.valid
        (omega (arith, h.room, length-byteof 4 rel32)) h.writable)
    where
      rel32 : ℕ
      rel32 = get_relative_address to (now a) jump_oplen

  -- With room for six bytes, `push` and `pop` emit a push and a pop of their register.
  pub push-Emitted :
      (r : Registers) (a : BasicAllocator) (w : World Kernel)
      → HasRoom win w.kernel a 6
      → Returns (Emitted a w (Decoder.push r)) (push win r a w)
        × Returns (Emitted a w (Decoder.pop r)) (pop win r a w)
  push-Emitted r a w h =
      rw (push-db_bytes win r a, pop-db_bytes win r a)
        (
          emitted (push_bytes r) (Decoder.push r) a w (decode-push_bytes r []).0 h.valid
              (omega arith) h.writable,
          emitted (pop_bytes r) (Decoder.pop r) a w (decode-push_bytes r []).1 h.valid (omega arith)
              h.writable,
        )

  -- With room for six bytes, `mov` from memory emits a load from its base register and the offset,
  -- sign-extended, unless the base is ebp and the offset 0.
  pub mov_load-Emitted :
      (target source : Registers) (offset : ℕ) (a : BasicAllocator) (w : World Kernel)
      → HasRoom win w.kernel a 6
      → (source ≢ ebp) ⊎ (offset ≢ 0)
      → Returns
          (Emitted a w (Decoder.load target source (sign_extend offset)))
          (mov_load win target source offset a w)
  mov_load-Emitted target source offset a w h other =
      rw (mov_load-db_bytes win target source offset a) (
        emitted (mov_load_bytes target source offset)
          (Decoder.load target source (sign_extend offset)) a w
          (decode-mov_load_bytes target source offset [] other) h.valid
          (omega (arith, h.room, length-mov_load_bytes target source offset)) h.writable)

  -- With room for six bytes, `mov` to memory emits a store of its register at the address.
  pub mov_store-Emitted :
      (address : ℕ) (source : Registers) (a : BasicAllocator) (w : World Kernel)
      → HasRoom win w.kernel a 6
      → address < word_mod
      → Returns
          (Emitted a w (Decoder.store_absolute address source))
          (mov_store win address source a w)
  mov_store-Emitted address source a w h lt = rw (mov_store-db_bytes win address source a) (
      emitted (mov_store_bytes address source) (Decoder.store_absolute address source) a w
        (decode-mov_store_bytes address source [] lt) h.valid
        (omega (arith, h.room, length-mov_store_bytes address source)) h.writable)
