-- ===== src/Hook/Object/Chained.antt =====
-- A hook whose jump another hook has written over is switched off and on in its trampoline.
use memwrapper.Base.{
  ℕ, ◌+◌, ◌<◌, word_mod, ◌≡◌, refl, sym, ap, ◌∙◌, fun_ext, Bool, true, false, ◌||◌, some, arith,
  List, length, replicate, leb, ◌==◌, Bool-cases, inl, inr, if◌then◌else◌,
}
use memwrapper.Machine.{Bytes, World, ◌>>=◌, ◌>>◌, pure, slice, overlay}
use memwrapper.Machine.Overlay.{overlay_at, overlay-slice}
use memwrapper.Machine.Returns
use memwrapper.Machine.Returns.{Returns, returns}
use memwrapper.Machine.Run.{CanRead}
use memwrapper.Windows.{Windows, WindowsLaws, cpu}
use memwrapper.Detail.{get_relative_address, jump_oplen, byteof}
use memwrapper.Llmo.Unprotect.Scope.{Same, Same-trans}
use memwrapper.Llmo.Operations.{flush_memory, fill_memory}
use memwrapper.Llmo.Operations.Effects.{flush-Same}
use memwrapper.Llmo.Operations.Kept.{IsOpen, fill_memory-Kept}
use memwrapper.Allocator
use memwrapper.Allocator.{BasicAllocator}
use memwrapper.Allocator.Appends.{HasRoom}
use memwrapper.Asm
use memwrapper.Asm.Encoding.{jmp_bytes}
use memwrapper.Asm.Appends.{jmp-Appends_at}
use memwrapper.Hook.Disassembler.{Disassembler}
use memwrapper.Hook.Object.Reads.{Reads, jump_to, destination_at, disassemble_jump}
use memwrapper.Hook.Object.{
  Memhook, install, reinstall, remove, patch_hook, hooker_offset, nop_opcode, jump_size,
}

-- What stands in the trampoline in place of the jump to the hooker, when the hook is off.
abbrev pub off_bytes : Memhook → (code : ℕ) → List ℕ
off_bytes h code =
    if h.flags.call_instruction
    then jmp_bytes (get_relative_address h.call_abs (code + hooker_offset) jump_oplen)
    else replicate jump_size nop_opcode

abbrev pub on_bytes : Memhook → (code : ℕ) → List ℕ
on_bytes h code = jmp_bytes (get_relative_address h.hooker (code + hooker_offset) jump_oplen)

abbrev pub switched : Memhook → BasicAllocator → (on : Bool) → Memhook
switched h t on = record h { trampoline_code = some t; flags = record h.flags { installed = on } }

-- A list that is written over and written again.
overlay-restore :
    (f : Bytes) (p : ℕ) (xs ys : List ℕ)
    → length xs ≡ length ys
    → slice f p (length ys) ≡ ys
    → overlay (overlay f p xs) p ys ≡ f
overlay-restore f p xs ys e same = fun_ext λ a.
    ap (λ zs. overlay (overlay f p xs) p zs a) (sym same)
    ∙ overlay-slice (overlay f p xs) f p (length ys) a
    ∙ ground (arith, overlay_at f p xs a, e)

module _ (win : Windows) (laws : WindowsLaws win) (d : Disassembler) where
  open win use {Kernel}

  -- The hook is installed, but a relative instruction of another hook, which leads neither to the
  -- trampoline nor to the call's old target, stands at the hooked function, where it may be read;
  -- and the trampoline may be written.
  pub record Chained (opcode other saved : ℕ) (t : BasicAllocator) (h : Memhook) (w : World Kernel)
      : Type 0 where
    pub installed : h.flags.installed ≡ true
    pub not_broken : h.flags.listing_broken ≡ false
    pub executable : h.flags.executable ≡ true
    pub original : h.original_code ≡ some saved
    pub trampoline : h.trampoline_code ≡ some t
    pub stands : slice w.bytes h.hookee 5 ≡ jump_to opcode other h.hookee
    pub can_read : CanRead (cpu win) w.kernel h.hookee 5
    pub other_word : other < word_mod
    pub not_own : (other == t.code) ≡ false
    pub not_call : (other == h.call_abs) ≡ false
    pub room : HasRoom win w.kernel (record t { offset = hooker_offset }) 5
    pub jump_open : IsOpen win w.kernel (t.code + hooker_offset) jump_size

  -- A jump is written at `hooker_offset`.
  jmp_in_head :
      (to : ℕ) (t : BasicAllocator) (w : World Kernel)
      → HasRoom win w.kernel (record t { offset = hooker_offset }) 5
      → Asm.jmp win to (Allocator.set_offset hooker_offset t) w
        ≡ some (
          record t { offset = 16 },
          record w {
            bytes =
                overlay w.bytes
                  (t.code + hooker_offset)
                  (jmp_bytes (get_relative_address to (t.code + hooker_offset) jump_oplen));
          },
        )
  unfolding byteof
  jmp_in_head to t w r =
      rw in_page (jmp-Appends_at win (record t { offset = hooker_offset }) w to _ refl r)
    where
      in_page : leb t.size hooker_offset ≡ false
      in_page = ground (arith, r.room)

  -- The object is switched off, and so is its trampoline; only the cursor has moved besides.
  abbrev pub Off : BasicAllocator → Memhook → World Kernel → Memhook → World Kernel → Type 0
  Off t h w h' u =
      (o : ℕ) × (h' ≡ switched h (record t { offset = o }) false)
      × (u.bytes ≡ overlay w.bytes (t.code + hooker_offset) (off_bytes h t.code))
      × Same win w.kernel u.kernel

  patch_hook-Off :
      (opcode other saved : ℕ) (t : BasicAllocator) (h : Memhook) (w : World Kernel)
      → Chained opcode other saved t h w
      → Returns (Off t h w) (patch_hook win d h w)
  unfolding patch_hook Allocator.ready flush_memory
  patch_hook-Off opcode other saved t h w c = elim (Bool-cases h.flags.call_instruction) [
    | inl call ↦
        rw (c.trampoline, call)
          (Returns.after _ _ _ (jmp_in_head h.call_abs t w c.room)
            (returns (16, refl, refl, flush-Same win laws _ _ w.kernel)))
    | inr plain ↦
        rw (c.trampoline, plain, in_page)
          (Returns.bind filled λ t' u (e, e', s).
            rw e
              (returns (t.offset, refl, e', Same-trans win s (flush-Same win laws _ _ u.kernel))))
  ]
    where
      in_page : leb t.size hooker_offset ≡ false
      in_page = ground (arith, c.room.room)

      Left : BasicAllocator → World Kernel → Type 0
      Left t' u =
          (t' ≡ t)
          × (u.bytes ≡ overlay w.bytes (t.code + hooker_offset) (replicate jump_size nop_opcode))
          × Same win w.kernel u.kernel

      filled :
          Returns Left
            ((do fill_memory win (t.code + hooker_offset) nop_opcode jump_size; pure t) w)
      filled =
          Returns.bind
            (fill_memory-Kept win laws (t.code + hooker_offset) nop_opcode jump_size w c.jump_open)
            λ _ u (e, s). returns (refl, e, s)

  -- When a relative instruction of another hook, which leads neither to the trampoline nor to the
  -- call's old target, stands at the hooked function and may be read there, `remove` returns and
  -- touches only the five bytes of the jump to the hooker: they are `nop`s then or, for a hooked
  -- call, a jump to its old target. The object keeps the saved bytes and the trampoline.
  pub remove-Off :
      (opcode other saved : ℕ) (t : BasicAllocator) (h : Memhook) (w : World Kernel)
      → Reads d opcode
      → Chained opcode other saved t h w
      → Returns (Off t h w) (remove win d h w)
  unfolding remove
  remove-Off opcode other saved t h w reads c =
      let (relative, leads) =
        destination_at win d opcode reads other h.hookee w.bytes c.other_word c.stands in
      let elsewhere : ((other == Allocator.get 0 t) || (other == h.call_abs)) ≡ false =
        ground (arith, c.not_own, c.not_call, c.room.room) in
      simp
        (
          c.installed,
          disassemble_jump win d opcode reads other h.hookee w c.stands c.can_read,
          relative,
          c.trampoline,
          leads,
          elsewhere,
        )
        (patch_hook-Off opcode other saved t h w c)

  -- `install` on a hook that is off writes the jump to the hooker.
  pub install-On :
      (saved storage : ℕ) (t : BasicAllocator) (h : Memhook) (w : World Kernel)
      → h.flags.installed ≡ false
      → h.flags.listing_broken ≡ false
      → h.flags.executable ≡ true
      → h.original_code ≡ some saved
      → h.trampoline_code ≡ some t
      → HasRoom win w.kernel (record t { offset = hooker_offset }) 5
      → Returns
          (λ h' u.
            (h' ≡ switched h (record t { offset = 16 }) true)
            × (u.bytes ≡ overlay w.bytes (t.code + hooker_offset) (on_bytes h t.code))
            × Same win w.kernel u.kernel)
          (install win d storage h w)
  unfolding install reinstall Allocator.ready flush_memory byteof
  install-On saved storage t h w off whole exec original trampoline r =
      simp (off, whole, exec, original, trampoline)
        (Returns.after _ _ _ (jmp_in_head h.hooker t w r)
          (returns (refl, refl, flush-Same win laws _ _ w.kernel)))

  -- If the trampoline holds its jump to the hooker, such a `remove` and an `install` after it
  -- return and leave all memory as it was, and the hook installed with the same trampoline.
  pub remove-install :
      (opcode other saved storage : ℕ) (t : BasicAllocator) (h : Memhook) (w : World Kernel)
      → Reads d opcode
      → Chained opcode other saved t h w
      → slice w.bytes (t.code + hooker_offset) 5 ≡ on_bytes h t.code
      → Returns
          (λ h' u.
            (h' ≡ switched h (record t { offset = 16 }) true)
            × (u.bytes ≡ w.bytes)
            × Same win w.kernel u.kernel)
          ((remove win d h >>= install win d storage) w)
  unfolding byteof
  remove-install opcode other saved storage t h w reads c on =
      Returns.bind (remove-Off opcode other saved t h w reads c) λ h' u (o, e, e', s). rw e (
        Returns.mono
          (install-On saved storage (record t { offset = o })
            (switched h (record t { offset = o }) false) u refl c.not_broken c.executable c.original
            refl
            (record {
              valid = c.room.valid;
              room = c.room.room;
              writable =
                  λ i lt. ap win.writable (s.protections (t.code + i)) ∙ c.room.writable i lt;
            }))
          λ h'' v (same, bytes, s'). (
            same,
            bytes
                ∙ ap (λ f. overlay f (t.code + hooker_offset) (on_bytes h t.code)) e'
                ∙ overlay-restore w.bytes (t.code + hooker_offset) (off_bytes h t.code)
                    (on_bytes h t.code) five on,
            Same-trans win s s',
          ))
    where
      five : length (off_bytes h t.code) ≡ 5
      five = elim (Bool-cases h.flags.call_instruction) [
        | inl call ↦ rw call refl
        | inr plain ↦ rw plain refl
      ]
