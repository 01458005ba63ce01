-- ===== src/Hook/Object/Installed.antt =====
-- What the first `install` leaves in memory, for a hook on instructions of which the first is no
-- call.
use memwrapper.Base.{
  ℕ, ◌+◌, ◌-◌, ◌≤◌, ◌<◌, ◌≡◌, refl, sym, ap, ◌∙◌, true, false, none, some, arith, List, length,
  ◌++◌, length-append, length-replicate, ◌==◌,
}
use mathlib.Core.Path.{subst, ap₂}
use memwrapper.Machine.{Bytes, World, slice, overlay}
use memwrapper.Machine.Returns
use memwrapper.Machine.Returns.{Returns, returns}
use memwrapper.Windows.{Windows, WindowsLaws}
use memwrapper.Detail.{get_relative_address, jump_oplen, byteof}
use memwrapper.Asm.Encoding.{jmp_bytes}
use memwrapper.Llmo.Unprotect.Scope.{Same, Same-trans}
use memwrapper.Llmo.Operations.Kept.{IsOpen, IsOpen-Same}
use memwrapper.Llmo.Operations.Open.{IsOpen-alloc}
use memwrapper.Allocator.{BasicAllocator}
use memwrapper.Allocator.Fresh.{grown}
use memwrapper.Hook.Disassembler.{Disassembler, DisassemblerLaws, disassemble, disassemble-returns}
use memwrapper.Hook.Relocation.Copies.{PlainListing, nil, cons, plain-Rewritten}
use memwrapper.Hook.Relocation.Rewritten.{length-Rewritten, extent-le_span}
use memwrapper.Hook.Object.{
  Memhook, install, install_first, install_trampoline, look_for_call, call_opcode, nop_opcode,
  jump_size, original_offset,
}
use memwrapper.Hook.Object.Patched.{patch_bytes, patch_hookee-Kept}
use memwrapper.Hook.Object.Saved.{Installable, cleared, save_original-Saved}
use memwrapper.Hook.Object.Placed.{Placed, Placed-overlay}
use memwrapper.Hook.Object.Written.{trampoline_bytes, Relocates, write_trampoline-Written}

-- A hook that was never installed and may be.
pub record IsNew (h : Memhook) : Type 0 where
  pub not_installed : h.flags.installed ≡ false
  pub not_broken : h.flags.listing_broken ≡ false
  pub executable : h.flags.executable ≡ true
  pub no_original : h.original_code ≡ none
  pub plain : h.flags.call_instruction ≡ false

abbrev pub installed_hook : (storage : ℕ) → Memhook → BasicAllocator → Memhook
installed_hook storage h t = record h {
  original_code = some storage;
  trampoline_code = some t;
  flags = record h.flags { installed = true };
}

-- The trampoline holds the head and the instructions as they were rewritten; the hooked function a
-- jump to it and `nop`s; the saved bytes are the original ones; nothing else has changed.
abbrev pub InMemory : (storage code : ℕ) → Memhook → (rewritten : List ℕ) → (f g : Bytes) → Type 0
InMemory storage code h rewritten f =
    Placed storage code h (trampoline_bytes h code rewritten) (patch_bytes code h.hookee h.size) f

-- Plain instructions follow the head as they are, with a jump to what is behind them.
abbrev pub plain_bytes : (code : ℕ) → Memhook → Bytes → List ℕ
plain_bytes code h f =
    slice f h.hookee h.size
    ++ jmp_bytes
        (get_relative_address (h.hookee + h.size) (code + original_offset + h.size) jump_oplen)

first-IsPlain :
    (d : Disassembler) (f : Bytes) (p n : ℕ)
    → PlainListing d f p n
    → 0 < n
    → ((d f p).opcode == call_opcode) ≡ false
first-IsPlain d f p n (nil e) pos = absurd (omega arith)
first-IsPlain d f p n (cons i l e) pos = i.no_call

pub plain-Relocates :
    (d : Disassembler) (f : Bytes) (code : ℕ) (h : Memhook)
    → DisassemblerLaws d
    → 0 < h.size
    → PlainListing d f h.hookee h.size
    → Relocates d f code h (plain_bytes code h f)
plain-Relocates d f code h dis pos listing = record {
  no_call = first-IsPlain d f h.hookee h.size listing pos;
  span = h.size;
  covered = omega arith;
  rewritten =
      plain-Rewritten d dis f h.size 0 h.size h.hookee (h.hookee + h.size) (code + original_offset)
        (code + original_offset + h.size) listing (omega arith) refl refl;
}

length-trampoline_bytes :
    (h : Memhook) (code : ℕ) (bs : List ℕ) → length (trampoline_bytes h code bs) ≡ length bs + 16
unfolding byteof
length-trampoline_bytes h code bs = omega (arith, length-append {0} bs)

pub length-patch_bytes :
    (code hookee size : ℕ) → jump_size ≤ size → length (patch_bytes code hookee size) ≡ size
unfolding byteof
length-patch_bytes code hookee size le =
    omega (arith, length-replicate {A = ℕ} (size - jump_size) nop_opcode)

module _ (win : Windows) (laws : WindowsLaws win) (d : Disassembler) (dis : DisassemblerLaws d)
    (storage code : ℕ) (h : Memhook) (w : World win.Kernel) (new : IsNew h)
    (can : Installable win storage code h w) (bs : List ℕ) (r : Relocates d w.bytes code h bs) where
  open win use {Kernel}

  abbrev trampoline : List ℕ
  trampoline = trampoline_bytes h code bs

  abbrev patch : List ℕ
  patch = patch_bytes code h.hookee h.size

  pub length-trampoline-le : length trampoline ≤ 4096
  length-trampoline-le = omega (
    arith,
    length-trampoline_bytes h code bs,
    length-Rewritten d w.bytes dis h.size h.hookee (code + original_offset) r.span bs r.rewritten,
    can.small,
  )

  fits : length patch ≡ h.size
  fits = length-patch_bytes code h.hookee h.size can.enough

  abbrev pub k₁ : Kernel
  k₁ = grown win (cleared storage h.size w)

  look_for_call-other : look_for_call win d h (d w.bytes h.hookee) ≡ h
  unfolding look_for_call
  look_for_call-other = rw r.no_call

  reads_first : disassemble win d h.hookee w ≡ some (d w.bytes h.hookee, w)
  reads_first = disassemble-returns win d h.hookee w λ i lt. can.target_read i (
      omega (
        arith,
        lt,
        extent-le_span d w.bytes dis h.size h.hookee (code + original_offset) r.span bs
            (omega (arith, can.enough)) r.rewritten,
        r.covered,
      ))

  -- Installing a new hook, which may be installed, on instructions of which the first is no call
  -- and which are rewritten from the covered bytes alone, returns. The object then records the
  -- saved bytes and the trampoline. The trampoline's page holds the head and the rewritten
  -- instructions, the hooked function a jump to the page and nops, the array the original bytes;
  -- nothing else has changed, and the kernel is as the allocation left it.
  pub install-InMemory :
      Returns
        (λ h' u.
          (t : BasicAllocator) × (t.code ≡ code)
          × (t.size ≡ 4096)
          × (h' ≡ installed_hook storage h t)
          × InMemory storage code h bs w.bytes u.bytes
          × Same win k₁ u.kernel)
        (install win d storage h w)
  unfolding install install_first install_trampoline
  install-InMemory =
      simp
        (
          new.not_installed, new.not_broken, new.executable, new.no_original, reads_first,
          look_for_call-other,
        )
        (Returns.bind (save_original-Saved win laws d storage code h w can) λ t u (et, eu, s).
          rw et (
            Returns.bind
              (write_trampoline-Written win laws d dis storage code h w can u bs new.plain r eu s)
              λ t' v (ec, es, ev, s').
                let kept = Same-trans win s s' in
                Returns.bind
                  (patch_hookee-Kept win laws d h t' v new.plain (target v kept) can.enough
                    can.word)
                  λ _ x (ex, s''). returns (
                    t',
                    ec,
                    es,
                    refl,
                    subst (InMemory storage code h bs w.bytes)
                        (sym (
                          ex
                          ∙ ap₂ (λ f c. overlay f h.hookee (patch_bytes c h.hookee h.size))
                              (ev ∙ ap (λ f. overlay f code trampoline) eu) ec))
                        (Placed-overlay win laws d storage code h w can trampoline patch
                          length-trampoline-le fits),
                    Same-trans win kept s'',
                  )))
    where
      target : (v : World Kernel) → Same win k₁ v.kernel → IsOpen win v.kernel h.hookee h.size
      target v s =
          IsOpen-Same win h.hookee h.size
            (IsOpen-alloc win laws 4096 _ h.hookee h.size (omega (arith, can.enough)) can.target) s
