-- ===== src/Hook/Object/Saved.antt =====
-- The first part of an installation: the original code is saved, and the trampoline has its page.
use memwrapper.Base.{
  ℕ, ◌+◌, ◌≤◌, ◌<◌, ◌≡◌, refl, ap, ◌∙◌, true, arith, Apart, replicate, length-replicate, word_mod,
  within,
}
use memwrapper.Machine.{Bytes, World, slice, overlay}
use memwrapper.Machine.Overlay.{slice-ext, length-slice, overlay_at}
use memwrapper.Machine.Returns
use memwrapper.Machine.Returns.{Returns, returns}
use memwrapper.Machine.Run.{CanRead, CanWrite, memset-overlay}
use memwrapper.Windows.{Windows, WindowsLaws, cpu}
use memwrapper.Llmo.Unprotect.Scope.{Same}
use memwrapper.Llmo.Operations.Kept.{IsOpen, copy_memory-Kept}
use memwrapper.Llmo.Operations.Open.{IsOpen-alloc, CanRead-alloc}
use memwrapper.Allocator.Fresh.{
  with_zeros, page_at, Allocates, grown, construct-page_at, page-Apart,
}
use memwrapper.Asm
use memwrapper.Hook.Disassembler.{Disassembler}
use memwrapper.Hook.Object.{Memhook, save_original, jump_size}

-- The world when the new array for the original code has been cleared.
abbrev pub cleared : {K : Type 0} → (storage n : ℕ) → World K → World K
cleared storage n w = record w { bytes = overlay w.bytes storage (replicate n 0) }

module _ (win : Windows) where
  open win use {Kernel, committed}

  -- What the first installation of a hook needs: the covered instructions hold a jump and lie in
  -- the address space, the hooked function and the new array are open and apart, and there is a
  -- page for the trampoline. The 32 bytes behind the covered ones are those that the disassembler
  -- may look at.
  pub record Installable (storage code : ℕ) (h : Memhook) (w : World Kernel) : Type 0 where
    pub enough : jump_size ≤ h.size
    pub small : h.size ≤ 19
    pub word : h.hookee + jump_size < word_mod
    pub target : IsOpen win w.kernel h.hookee h.size
    -- The disassembler looks at the byte behind an instruction.
    pub target_read : CanRead (cpu win) w.kernel h.hookee (h.size + 1)
    pub behind : committed w.kernel h.hookee (h.size + 32) ≡ true
    pub store : IsOpen win w.kernel storage h.size
    pub store_read : CanRead (cpu win) w.kernel storage h.size
    pub store_write : CanWrite (cpu win) w.kernel storage h.size
    pub apart : Apart h.hookee (h.size + 32) storage h.size
    pub new : Allocates win (cleared storage h.size w) code

module _ (win : Windows) (laws : WindowsLaws win) (d : Disassembler) (storage code : ℕ)
    (h : Memhook) (w : World win.Kernel) (can : Installable win storage code h w) where
  open win use {Kernel}

  abbrev pub zeroed : World Kernel
  zeroed = cleared storage h.size w

  -- The hooked function and the bytes behind it are not touched so far.
  pub prepared_at :
      (a : ℕ)
      → within h.hookee (h.size + 32) a ≡ true
      → with_zeros zeroed.bytes code 4096 a ≡ w.bytes a
  prepared_at a i = ground (
    arith,
    page-Apart win laws zeroed code can.new h.hookee (h.size + 32) can.behind,
    overlay_at w.bytes storage (replicate h.size 0) a,
    length-replicate {A = ℕ} h.size 0,
    can.apart,
  )

  -- The bytes when the original code has been saved.
  abbrev pub saved_bytes : Bytes
  saved_bytes = overlay (with_zeros zeroed.bytes code 4096) storage (slice w.bytes h.hookee h.size)

  pub saved_bytes_at : (a : ℕ) → within h.hookee (h.size + 32) a ≡ true → saved_bytes a ≡ w.bytes a
  saved_bytes_at a i = ground (
    arith,
    overlay_at (with_zeros zeroed.bytes code 4096) storage (slice w.bytes h.hookee h.size) a,
    length-slice w.bytes h.hookee h.size,
    can.apart,
    prepared_at a,
  )

  pub save_original-Saved :
      Returns
        (λ t u. (t ≡ page_at code) × (u.bytes ≡ saved_bytes) × Same win (grown win zeroed) u.kernel)
        (save_original win d storage h w)
  unfolding save_original Asm.construct
  save_original-Saved =
      Returns.after _ tt zeroed (memset-overlay (cpu win) storage 0 h.size w can.store_write) (
        Returns.after _ (page_at code) _ (construct-page_at win laws zeroed code can.new) (
          Returns.bind
            (copy_memory-Kept win laws storage h.hookee h.size _
              (IsOpen-alloc win laws 4096 zeroed.bytes storage h.size (omega (arith, can.enough))
                can.store)
              (CanRead-alloc win laws 4096 zeroed.bytes h.hookee h.size can.target.commit
                (λ i lt. can.target_read i (omega (arith, lt)))))
            λ _ u (e, s). returns (
              refl,
              e
                  ∙ ap (overlay (with_zeros zeroed.bytes code 4096) storage) (
                      slice-ext _ w.bytes h.hookee h.hookee h.size
                        (λ i lt. prepared_at (h.hookee + i) (ground arith))),
              s,
            )))
