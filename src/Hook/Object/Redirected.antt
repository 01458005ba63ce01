-- ===== src/Hook/Object/Redirected.antt =====
-- What the first `install` leaves in memory, for a hook on a call.
use memwrapper.Base.{
  ℕ, ◌+◌, ◌≤◌, ◌≡◌, refl, sym, ap, ◌∙◌, true, some, arith, List, length, add32, ◌==◌,
}
use mathlib.Core.Path.{subst, ap₂}
use memwrapper.Machine.{Bytes, World, slice, overlay}
use memwrapper.Machine.Overlay.{overlay_at}
use memwrapper.Machine.Returns
use memwrapper.Machine.Returns.{Returns, returns}
use memwrapper.Windows.{Windows, WindowsLaws}
use memwrapper.Detail.{restore_absolute_address, byteof}
use memwrapper.Detail.Bytes.{number}
use memwrapper.Llmo.Unprotect.Scope.{Same, Same-trans}
use memwrapper.Llmo.Operations.Kept.{IsOpen, IsOpen-Same}
use memwrapper.Llmo.Operations.Open.{IsOpen-alloc}
use memwrapper.Allocator.{BasicAllocator}
use memwrapper.Allocator.Fresh.{grown, page-Apart}
use memwrapper.Hook.Disassembler.{Disassembler, DisassemblerLaws, disassemble, disassemble-returns}
use memwrapper.Hook.Object.{
  Memhook, install, install_first, install_trampoline, look_for_call, call_address, call_opcode,
}
use memwrapper.Hook.Object.Head.{head_bytes}
use memwrapper.Hook.Object.Patched.{
  redirected_bytes, length-redirected_bytes, patch_hookee-Kept_call,
}
use memwrapper.Hook.Object.Saved.{
  Installable, cleared, saved_bytes, saved_bytes_at, save_original-Saved,
}
use memwrapper.Hook.Object.Placed.{Placed, Placed-overlay}
use memwrapper.Hook.Object.Written.{write_trampoline-Written_call}
use memwrapper.Hook.Object.Installed.{IsNew, installed_hook}

-- Where the call at `p` leads on the processor.
abbrev pub call_target : (f : Bytes) (p : ℕ) → ℕ
call_target f p = add32 (add32 p 5) (number (slice f (p + 1) 4))

abbrev pub called : Memhook → (target : ℕ) → Memhook
called h target = record h { call_abs = target; flags = record h.flags { call_instruction = true } }

-- The trampoline holds the head; the call leads to it, with `nop`s behind it; the saved bytes are
-- the original ones; nothing else has changed.
abbrev pub Redirected : (storage code : ℕ) → Memhook → (f g : Bytes) → Type 0
Redirected storage code h f =
    Placed storage code h (head_bytes h.return_address h.hooker code)
      (redirected_bytes call_opcode code h.hookee h.size) f

pub length-head_bytes-le : (ra hooker code : ℕ) → length (head_bytes ra hooker code) ≤ 4096
unfolding byteof
length-head_bytes-le ra hooker code = omega arith

module _ (win : Windows) (laws : WindowsLaws win) (d : Disassembler) (dis : DisassemblerLaws d)
    (storage code : ℕ) (h : Memhook) (w : World win.Kernel) (new : IsNew h)
    (can : Installable win storage code h w) (call : w.bytes h.hookee ≡ call_opcode) where
  open win use {Kernel}

  abbrev h₁ : Memhook
  h₁ = called h (call_target w.bytes h.hookee)

  look_for_call-called : look_for_call win d h (d w.bytes h.hookee) ≡ h₁
  unfolding look_for_call restore_absolute_address
  look_for_call-called =
      let (_, imm, _, _, _, opcode, _) = dis.call w.bytes h.hookee call in
      rw (ap (λ o. o == call_opcode) opcode, imm) (ap (λ target. called h target) (omega arith))

  pub called-Installable : Installable win storage code h₁ w
  called-Installable = record {
    enough = can.enough;
    small = can.small;
    word = can.word;
    target = can.target;
    target_read = can.target_read;
    behind = can.behind;
    store = can.store;
    store_read = can.store_read;
    store_write = can.store_write;
    apart = can.apart;
    new = can.new;
  }

  abbrev head : List ℕ
  head = head_bytes h.return_address h.hooker code

  abbrev saved : Bytes
  saved = saved_bytes win laws d storage code h₁ w called-Installable

  -- The call's opcode still stands when the trampoline has been written.
  opcode_stays : overlay saved code head h.hookee ≡ call_opcode
  opcode_stays =
      ground (
        arith,
        overlay_at saved code head h.hookee,
        length-head_bytes-le h.return_address h.hooker code,
        page-Apart win laws (cleared storage h.size w) code can.new h.hookee (h.size + 32)
            can.behind,
      )
      ∙ saved_bytes_at win laws d storage code h₁ w called-Installable h.hookee (ground arith)
      ∙ call

  -- What the object and the world are when the hook has been installed.
  abbrev pub Outcome : Memhook → World Kernel → Type 0
  Outcome h' u =
      (t : BasicAllocator) × (t.code ≡ code)
      × (t.size ≡ 4096)
      × (h' ≡ installed_hook storage (called h (call_target w.bytes h.hookee)) t)
      × (call_address win d h' u ≡ some (call_target w.bytes h.hookee, u))
      × Redirected storage code h w.bytes u.bytes
      × Same win (grown win (cleared storage h.size w)) u.kernel

  final-Redirected :
      (v x : Bytes) (c : ℕ)
      → c ≡ code
      → v ≡ overlay saved code head
      → x ≡ overlay v h.hookee (redirected_bytes (v h.hookee) c h.hookee h.size)
      → Redirected storage code h w.bytes x
  final-Redirected v x c ec ev ex =
      subst (Redirected storage code h w.bytes)
        (sym (
          ex
          ∙ ap₂ (λ f b. overlay f h.hookee (redirected_bytes b c h.hookee h.size)) ev
              (ap (λ f. f h.hookee) ev ∙ opcode_stays)
          ∙ ap
              (λ b.
                overlay (overlay saved code head) h.hookee
                  (redirected_bytes call_opcode b h.hookee h.size))
              ec))
        (Placed-overlay win laws d storage code h w can head
          (redirected_bytes call_opcode code h.hookee h.size)
          (length-head_bytes-le h.return_address h.hooker code)
          (length-redirected_bytes call_opcode code h.hookee h.size can.enough))

  install_trampoline-Redirected : Returns Outcome (install_trampoline win d storage h₁ w)
  unfolding install_trampoline call_address
  install_trampoline-Redirected =
      Returns.bind (save_original-Saved win laws d storage code h₁ w called-Installable)
        λ t u (et, eu, s). rw et (
          Returns.bind
            (write_trampoline-Written_call win laws d dis storage code h₁ w called-Installable u
              refl s)
            λ t' v (ec, es, ev, s').
              let kept = Same-trans win s s' in
              Returns.bind
                (patch_hookee-Kept_call win laws d h₁ t' v refl (target v kept) can.enough can.word)
                λ _ x (ex, s''). returns (
                  t',
                  ec,
                  es,
                  refl,
                  refl,
                  final-Redirected v.bytes x.bytes t'.code ec
                      (ev ∙ ap (λ f. overlay f code head) eu) ex,
                  Same-trans win kept s'',
                ))
    where
      target :
          (v : World Kernel)
          → Same win (grown win (cleared storage h.size w)) v.kernel
          → IsOpen win v.kernel h.hookee h.size
      target v s =
          IsOpen-Same win h.hookee h.size
            (IsOpen-alloc win laws 4096 _ h.hookee h.size (omega (arith, can.enough)) can.target) s

  installs_first : install win d storage h w ≡ install_first win d storage h w
  unfolding install
  installs_first = simp (new.not_installed, new.not_broken, new.executable, new.no_original)

  installs_trampoline : install win d storage h w ≡ install_trampoline win d storage h₁ w
  unfolding install_first
  installs_trampoline =
      installs_first
      ∙ rw (reads_call) (ap (λ x. install_trampoline win d storage x w) look_for_call-called)
    where
      reads_call : disassemble win d h.hookee w ≡ some (d w.bytes h.hookee, w)
      reads_call =
          let (_, _, _, _, _, _, extent) = dis.call w.bytes h.hookee call in
          disassemble-returns win d h.hookee w
            λ i lt. can.target_read i (omega (arith, lt, extent, can.enough))

  -- Installing a new hook on a call, which may be installed, returns. The object records the saved
  -- bytes, the trampoline and the call's target, which is what `call` calls. The trampoline's page
  -- holds the head; the call leads to the page, with `nop`s behind it; the array holds the original
  -- bytes; nothing else has changed, and the kernel is as the allocation left it.
  pub install-Redirected : Returns Outcome (install win d storage h w)
  install-Redirected = rw installs_trampoline install_trampoline-Redirected
