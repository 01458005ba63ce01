-- ===== src/Hook/Object/Phases/Lives.antt =====
-- The life of a new hook on a call, and of one on other instructions.
use memwrapper.Base.{ℕ, ◌+◌, ◌≡◌, refl, some, List, [], ◌++◌, length}
use memwrapper.Machine.{Bytes, World, slice}
use memwrapper.Machine.Overlay.{slice_parts}
use memwrapper.Machine.Returns
use memwrapper.Machine.Returns.{Returns}
use memwrapper.Windows.{Windows, WindowsLaws}
use memwrapper.Detail.{byteof}
use memwrapper.Hook.Disassembler.{Disassembler, DisassemblerLaws}
use memwrapper.Allocator.{BasicAllocator}
use memwrapper.Allocator.Fresh.{grown}
use memwrapper.Llmo.Unprotect.Scope.{Same}
use memwrapper.Hook.Object.Patched.{redirected_bytes}
use memwrapper.Hook.Object.{Memhook, install, call_opcode, jump_opcode, hooker_offset}
use memwrapper.Hook.Object.Chained.{on_bytes}
use memwrapper.Hook.Object.Cycle.{reads_jump, reads_call}
use memwrapper.Hook.Object.Head.{head_bytes, head_parts}
use memwrapper.Hook.Object.Installed.{IsNew, installed_hook, install-InMemory, length-trampoline-le}
use memwrapper.Hook.Object.Placed.{Placed}
use memwrapper.Hook.Object.Redirected.{
  length-head_bytes-le, called, call_target, called-Installable, install-Redirected,
}
use memwrapper.Hook.Object.Saved.{Installable, cleared}
use memwrapper.Hook.Object.Written.{trampoline_bytes, Relocates}
use memwrapper.Hook.Object.Phases.{Phase, idle, Event, outside, follow, run}
use memwrapper.Hook.Object.Phases.Represents.{Represents}
use memwrapper.Hook.Object.Phases.Refines.{run-Represents}

-- Where the head's jump stands, when the head begins a trampoline.
pub head_jump :
    (h : Memhook) (code : ℕ) (rest : List ℕ) (g : Bytes)
    → slice g code (length (head_bytes h.return_address h.hooker code ++ rest))
      ≡ head_bytes h.return_address h.hooker code ++ rest
    → slice g (code + hooker_offset) 5 ≡ on_bytes h code
unfolding byteof
head_jump h code rest g e =
    (head_parts g h.return_address h.hooker code
      (slice_parts g code (head_bytes h.return_address h.hooker code) rest e).0).1

module _ (win : Windows) where
  open win use {Kernel}

  -- The world that other code makes, with the page of the trampoline.
  abbrev pub environment : (storage : ℕ) → Memhook → World Kernel → List Event → World Kernel
  environment storage h w es = record {
    bytes = outside w.bytes es;
    kernel = grown win (cleared storage h.size w);
  }

module _ (win : Windows) (laws : WindowsLaws win) (d : Disassembler) (dis : DisassemblerLaws d)
    (storage code : ℕ) (h : Memhook) (w : World win.Kernel) (new : IsNew h)
    (can : Installable win storage code h w) where
  open win use {Kernel}

  -- Let a new hook that may be installed, on instructions of which the first is no call and which
  -- are rewritten from the covered bytes alone, go through any calls of `install` and `remove`,
  -- with any number of later hooks that come and go in between, the last one first, and with other
  -- code that writes where the hook has nothing, which the state machine follows from its first
  -- phase to `q`. All of them return, and the object and the world are in the end what `q` says of
  -- a memory in which the other code has written.
  pub run-Represents_code :
      (bs : List ℕ)
      → Relocates d w.bytes code h bs
      → (es : List Event) (q : Phase) → follow storage code h idle es ≡ some q
      → Returns
          (Represents win laws d jump_opcode
            (reads_jump d dis)
            storage
            code
            h
            h
            w
            can
            (trampoline_bytes h code bs)
            (environment win storage h w es)
            q)
          (run win d jump_opcode storage code es h w)
  run-Represents_code bs r es q n =
      run-Represents win laws d jump_opcode (reads_jump d dis) storage code h h w can _
        (length-trampoline-le win laws d dis storage code h w new can bs r) (head_jump h code _)
        new.not_installed new.not_broken new.executable
        (install-InMemory win laws d dis storage code h w new can bs r)
        (environment win storage h w []) es idle q h w n (refl, refl, refl)

  module _ (call : w.bytes h.hookee ≡ call_opcode) where
    -- The hook when it has found the call.
    abbrev pub h₁ : Memhook
    h₁ = called h (call_target w.bytes h.hookee)

    call_head :
        (g : Bytes)
        → slice g code (length (head_bytes h.return_address h.hooker code))
          ≡ head_bytes h.return_address h.hooker code
        → slice g (code + hooker_offset) 5 ≡ on_bytes h₁ code
    unfolding byteof
    call_head g e = (head_parts g h.return_address h.hooker code e).1

    call_first :
        Returns
          (λ h' u.
            (t : BasicAllocator) × (t.code ≡ code)
            × (t.size ≡ 4096)
            × (h' ≡ installed_hook storage h₁ t)
            × Placed storage code h₁
                (head_bytes h.return_address h.hooker code)
                (redirected_bytes call_opcode code h.hookee h.size)
                w.bytes
                u.bytes
            × Same win (grown win (cleared storage h.size w)) u.kernel)
          (install win d storage h w)
    call_first =
        Returns.mono (install-Redirected win laws d dis storage code h w new can call)
          λ h' u (t, c, z, e, _, m, s). (
            t,
            c,
            z,
            e,
            record {
              trampoline = m.trampoline;
              patched = m.patched;
              saved = m.saved;
              elsewhere = m.elsewhere;
            },
            s,
          )

    -- Let a new hook on a call that may be installed go through any calls of `install` and
    -- `remove`, with any number of later hooks that come and go in between, the last one first, and
    -- with other code that writes where the hook has nothing, which the state machine follows from
    -- its first phase to `q`; here no later hook leads to the call's old target. All of them
    -- return, and the object and the world are in the end what `q` says of a memory in which the
    -- other code has written.
    pub run-Represents_call :
        (es : List Event) (q : Phase)
        → follow storage code h₁ idle es ≡ some q
        → Returns
            (Represents win laws d call_opcode
              (reads_call d dis)
              storage
              code
              h
              h₁
              w
              (called-Installable win laws d dis storage code h w new can call)
              (head_bytes h.return_address h.hooker code)
              (environment win storage h w es)
              q)
            (run win d call_opcode storage code es h w)
    run-Represents_call es q n =
        run-Represents win laws d call_opcode (reads_call d dis) storage code h h₁ w
          (called-Installable win laws d dis storage code h w new can call) _
          (length-head_bytes-le h.return_address h.hooker code) call_head new.not_installed
          new.not_broken new.executable call_first (environment win storage h w []) es idle q h w n
          (refl, refl, refl)
