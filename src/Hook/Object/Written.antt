-- ===== src/Hook/Object/Written.antt =====
-- The second part of an installation: the trampoline's code.
use memwrapper.Base.{
  ℕ, suc, ◌+◌, ◌≤◌, ◌≡◌, refl, sym, ap, ◌∙◌, true, false, arith, Apart, List, ◌++◌, length, ◌==◌,
}
use mathlib.Core.Path.{ap₂}
use memwrapper.Machine.{Bytes, World, overlay}
use memwrapper.Machine.Overlay.{overlay_at, overlay-append}
use memwrapper.Machine.Returns
use memwrapper.Machine.Returns.{Returns, returns}
use memwrapper.Machine.Run.{CanRead}
use memwrapper.Windows.{Windows, WindowsLaws, cpu}
use memwrapper.Detail.{byteof}
use memwrapper.Llmo.Unprotect.Scope.{Same}
use memwrapper.Llmo.Operations.Effects.{flush-Same}
use memwrapper.Llmo.Operations.{flush_memory}
use memwrapper.Llmo.Operations.Kept.{CanRead-Same}
use memwrapper.Llmo.Operations.Open.{CanRead-alloc_within}
use memwrapper.Allocator
use memwrapper.Allocator.{BasicAllocator, now}
use memwrapper.Allocator.Writes.{advance}
use memwrapper.Allocator.Appends.{HasRoom, HasRoom-advance, written_at}
use memwrapper.Allocator.Fresh.{page_at, grown, page_at-HasRoom, page-Apart}
use memwrapper.Hook.Disassembler.{Disassembler, DisassemblerLaws}
use memwrapper.Hook.Relocation.Rewritten.{Rewritten, length-Rewritten}
use memwrapper.Hook.Relocation.Writes.{Agree, generate-Appends}
use memwrapper.Hook.Object.{Memhook, write_trampoline, original_offset, call_opcode}
use memwrapper.Hook.Object.Head.{head_bytes, write_head-Appends_at}
use memwrapper.Hook.Object.Saved.{Installable, saved_bytes, saved_bytes_at, cleared}

-- The trampoline of a hook at `code`: its head, and what follows it.
abbrev pub trampoline_bytes : Memhook → (code : ℕ) → (rewritten : List ℕ) → List ℕ
trampoline_bytes h code rewritten = head_bytes h.return_address h.hooker code ++ rewritten

-- The covered instructions become `bs` behind the trampoline's head: the first of them is no call,
-- and all those that are rewritten lie in the covered bytes.
pub record Relocates (d : Disassembler) (f : Bytes) (code : ℕ) (h : Memhook) (bs : List ℕ)
    : Type 0 where
  pub no_call : ((d f h.hookee).opcode == call_opcode) ≡ false
  pub span : ℕ
  pub covered : span ≤ h.size
  pub rewritten : Rewritten d f h.size h.hookee 0 (code + original_offset) span bs

module _ (win : Windows) (laws : WindowsLaws win) (d : Disassembler) (dis : DisassemblerLaws d)
    (storage code : ℕ) (h : Memhook) (w : World win.Kernel)
    (can : Installable win storage code h w) where
  open win use {Kernel}

  abbrev k₁ : Kernel
  k₁ = grown win (cleared storage h.size w)

  -- The page has room in each world with the kernel that the allocation left.
  room :
      (u : World Kernel) (n : ℕ)
      → n ≤ 4096
      → Same win k₁ u.kernel
      → HasRoom win u.kernel (page_at code) n
  room u n le s =
      let r = page_at-HasRoom win laws (cleared storage h.size w) code can.new n le in
      record {
        valid = r.valid;
        room = r.room;
        writable = λ i lt. ap win.writable (s.protections (code + i)) ∙ r.writable i lt;
      }

  apart : Apart code 4096 h.hookee (h.size + 32)
  apart =
      page-Apart win laws (cleared storage h.size w) code can.new h.hookee (h.size + 32) can.behind

  abbrev head : List ℕ
  head = head_bytes h.return_address h.hooker code

  abbrev headed : World Kernel → World Kernel
  headed u = written_at u (page_at code) head

  -- The hooked function is as it was when the head has been written.
  agrees :
      (u : World Kernel)
      → u.bytes ≡ saved_bytes win laws d storage code h w can
      → Agree (headed u).bytes w.bytes h.hookee h.size
  unfolding byteof
  agrees u e i lt =
      let outside : (headed u).bytes (h.hookee + i) ≡ u.bytes (h.hookee + i) =
        ground (arith, overlay_at u.bytes (now (page_at code)) head (h.hookee + i), apart) in
      outside
      ∙ ap (λ g. g (h.hookee + i)) e
      ∙ saved_bytes_at win laws d storage code h w can (h.hookee + i) (ground arith)

  together :
      (f : Bytes) (bs : List ℕ)
      → overlay (overlay f (now (page_at code)) head) (now (advance (page_at code) 16)) bs
        ≡ overlay f code (head ++ bs)
  unfolding byteof
  together f bs =
      ap₂ (λ p q. overlay (overlay f p head) q bs) (omega arith) (omega arith)
      ∙ sym (overlay-append f code head bs)

  pub write_trampoline-Written :
      (u : World Kernel) (bs : List ℕ)
      → h.flags.call_instruction ≡ false
      → Relocates d w.bytes code h bs
      → u.bytes ≡ saved_bytes win laws d storage code h w can
      → Same win k₁ u.kernel
      → Returns
          (λ t v.
            (t.code ≡ code)
            × (t.size ≡ 4096)
            × (v.bytes ≡ overlay u.bytes code (trampoline_bytes h code bs))
            × Same win u.kernel v.kernel)
          (write_trampoline win d h (page_at code) u)
  unfolding write_trampoline Allocator.ready flush_memory byteof
  write_trampoline-Written u bs plain r e s =
      Returns.after _ _ (headed u)
        (write_head-Appends_at win d h code (page_at code) u (omega arith)
          (room u 16 (omega arith) s))
        (simp plain (
          Returns.after _ _ _
            (generate-Appends win d dis w.bytes (suc h.size) h.size h.hookee 0
              (code + original_offset) r.span bs (advance (page_at code) 16) (headed u) r.rewritten
              (omega arith) (omega arith) (omega arith)
              (λ i lt. agrees u e i (omega (arith, r.covered)))
              (HasRoom-advance win (page_at code) 16 (length bs)
                (room u (16 + length bs) (omega (arith, can.small, short)) s))
              (λ i lt. readable i (omega (arith, r.covered))) (ground (arith, apart, r.covered)))
            (returns (refl, refl, together u.bytes bs, flush-Same win laws _ _ u.kernel))))
    where
      short : length bs ≤ h.size + 19
      short =
          length-Rewritten d w.bytes dis h.size h.hookee (code + original_offset) r.span bs
            r.rewritten

      readable : CanRead (cpu win) u.kernel h.hookee (h.size + 1)
      readable =
          CanRead-Same win h.hookee (h.size + 1)
            (CanRead-alloc_within win laws 4096 _ h.hookee (h.size + 1) (h.size + 32) can.behind
              (omega arith) can.target_read)
            s

  -- For a hooked call the trampoline is the head alone.
  pub write_trampoline-Written_call :
      (u : World Kernel)
      → h.flags.call_instruction ≡ true
      → Same win k₁ u.kernel
      → Returns
          (λ t v.
            (t.code ≡ code)
            × (t.size ≡ 4096)
            × (v.bytes ≡ overlay u.bytes code head)
            × Same win u.kernel v.kernel)
          (write_trampoline win d h (page_at code) u)
  unfolding write_trampoline Allocator.ready flush_memory byteof
  write_trampoline-Written_call u call s =
      Returns.after _ _ (headed u)
        (write_head-Appends_at win d h code (page_at code) u (omega arith)
          (room u 16 (omega arith) s))
        (simp call (
          returns (
            refl,
            refl,
            ap (λ p. overlay u.bytes p head) (omega arith),
            flush-Same win laws _ _ u.kernel,
          )))
