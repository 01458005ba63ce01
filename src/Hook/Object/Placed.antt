-- ===== src/Hook/Object/Placed.antt =====
-- What an installation leaves in memory: the trampoline in its page, the patch at the hooked
-- function, and the saved bytes.
use memwrapper.Base.{
  ℕ, ◌+◌, ◌≤◌, ◌≡◌, sym, ap, ◌∙◌, false, arith, Apart, List, length, replicate, within,
  length-replicate,
}
use memwrapper.Machine.{Bytes, World, slice, overlay}
use memwrapper.Machine.Overlay.{overlay_at, length-slice, slice-overlay, slice-overlay_apart}
use memwrapper.Windows.{Windows, WindowsLaws}
use memwrapper.Allocator.Fresh.{with_zeros, page-Apart}
use memwrapper.Hook.Disassembler.{Disassembler}
use memwrapper.Hook.Object.{Memhook}
use memwrapper.Hook.Object.Saved.{Installable, cleared, saved_bytes}

-- `g` has the trampoline's code at `code`, the patch at the hooked function and its bytes of `f` at
-- `storage`; nothing else has changed but the page at `code`.
pub record Placed (storage code : ℕ) (h : Memhook) (code_bytes patch : List ℕ) (f g : Bytes)
    : Type 0 where
  pub trampoline : slice g code (length code_bytes) ≡ code_bytes
  pub patched : slice g h.hookee (length patch) ≡ patch
  pub saved : slice g storage h.size ≡ slice f h.hookee h.size
  pub elsewhere :
      (a : ℕ)
      → within h.hookee h.size a ≡ false
      → within storage h.size a ≡ false
      → within code 4096 a ≡ false
      → g a ≡ f a

module _ (win : Windows) (laws : WindowsLaws win) (d : Disassembler) (storage code : ℕ)
    (h : Memhook) (w : World win.Kernel) (can : Installable win storage code h w)
    (trampoline patch : List ℕ) (short : length trampoline ≤ 4096)
    (fits : length patch ≡ h.size) where
  abbrev cleared_bytes : Bytes
  cleared_bytes = (cleared storage h.size w).bytes

  abbrev saved : Bytes
  saved = saved_bytes win laws d storage code h w can

  abbrev trampolined : Bytes
  trampolined = overlay saved code trampoline

  -- The bytes when all three are written.
  abbrev pub final : Bytes
  final = overlay trampolined h.hookee patch

  code_hookee : Apart code 4096 h.hookee (h.size + 32)
  code_hookee =
      page-Apart win laws (cleared storage h.size w) code can.new h.hookee (h.size + 32) can.behind

  code_storage : Apart code 4096 storage h.size
  code_storage =
      page-Apart win laws (cleared storage h.size w) code can.new storage h.size can.store.commit

  pub Placed-overlay : Placed storage code h trampoline patch w.bytes final
  Placed-overlay = record {
    trampoline =
        slice-overlay_apart trampolined h.hookee patch code (length trampoline)
          (ground (arith, code_hookee, fits, short))
        ∙ slice-overlay saved code trampoline;
    patched = slice-overlay trampolined h.hookee patch;
    saved =
        slice-overlay_apart trampolined h.hookee patch storage h.size
          (ground (arith, can.apart, fits))
        ∙ slice-overlay_apart saved code trampoline storage h.size
            (ground (arith, code_storage, short))
        ∙ ap (slice saved storage) (sym (length-slice w.bytes h.hookee h.size))
        ∙ slice-overlay _ storage (slice w.bytes h.hookee h.size);
    elsewhere = λ a x y z. ground (
      arith,
      overlay_at trampolined h.hookee patch a,
      overlay_at saved code trampoline a,
      overlay_at (with_zeros cleared_bytes code 4096) storage (slice w.bytes h.hookee h.size) a,
      overlay_at w.bytes storage (replicate h.size 0) a,
      length-slice w.bytes h.hookee h.size,
      length-replicate {A = ℕ} h.size 0,
      fits,
      short,
    );
  }
