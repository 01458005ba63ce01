-- ===== src/Hook/Object/Phases.antt =====
-- The life of a memhook as a state machine. The program calls `install` and `remove` in any order,
-- and in between later hooks on the same function write their jumps over ours and take them away,
-- and other code writes to the rest of memory.
pub mod Memory
pub mod Represents
pub mod Changes
pub mod Switches
pub mod Refines
pub mod Lives
pub mod Runs
pub mod Ends
pub mod Context
pub mod Others
pub mod Relocated
pub mod Pair
pub mod Nested
pub mod Chain
pub mod Whole
use memwrapper.Base.{
  ℕ, Bool, true, false, ◌&&◌, ◌||◌, not, ◌+◌, leb, length, Option, none, some, List, [], ◌∷◌, ltb,
  word_mod, ◌==◌, if◌then◌else◌,
}
use memwrapper.Machine.{Bytes, M, World, pure, ◌>>=◌, overlay}
use memwrapper.Windows.{Windows}
use memwrapper.Hook.Disassembler.{Disassembler}
use memwrapper.Hook.Object.Reads.{jump_to}
use memwrapper.Hook.Object.{Memhook, install, remove}

pub data Event : Type 0 where
  call_install call_remove : Event
  -- A later hook with its trampoline at the address writes its jump.
  bury : ℕ → Event
  -- It puts back what it found, a jump to the address.
  unbury : ℕ → Event
  -- Other code writes bytes at an address, none of which are the hook's.
  elsewhere : (at : ℕ) → List ℕ → Event

pub data Phase : Type 0 where
  idle : Phase
  -- The trampoline is there: it leads to the hooker or not, and the later hooks on the same
  -- function, the last of them first, have their trampolines at the addresses.
  loaded : (on : Bool) (over : List ℕ) → Phase
  spent : Phase

-- Addresses that `remove` does not take for its own.
abbrev pub is_other : (code call_abs other : ℕ) → Bool
is_other code call_abs other = ltb other word_mod && not (other == code) && not (other == call_abs)

-- Where the instruction at the hooked function leads.
abbrev pub leads : (code : ℕ) → List ℕ → ℕ
leads code [] = code
leads code (other ∷ _) = other

abbrev is_apart : (p n q m : ℕ) → Bool
is_apart p n q m = leb (p + n) q || leb (q + m) p

-- A range without bytes of the hooked function, of the saved bytes or of the trampoline's page.
abbrev pub is_elsewhere : (storage code : ℕ) → Memhook → (p n : ℕ) → Bool
is_elsewhere storage code h p n =
    is_apart p n h.hookee h.size && is_apart p n storage h.size && is_apart p n code 4096

abbrev guarded : Bool → Phase → Option Phase
guarded b p = if b then some p else none

module _ (storage code : ℕ) (h : Memhook) where
  -- What an event makes of a phase. Later hooks come after the first installation, and go in the
  -- opposite order.
  abbrev pub next : Phase → Event → Option Phase
  next idle call_install = some (loaded true [])
  next idle call_remove = some idle
  next (loaded on over) call_install = some (loaded true over)
  next (loaded true []) call_remove = some spent
  next (loaded true (other ∷ over)) call_remove = some (loaded false (other ∷ over))
  next (loaded false over) call_remove = some (loaded false over)
  next (loaded on over) (bury other) =
      guarded (is_other code h.call_abs other) (loaded on (other ∷ over))
  next (loaded on (_ ∷ over)) (unbury below) = guarded (below == leads code over) (loaded on over)
  next (loaded on over) (elsewhere p bs) =
      guarded (is_elsewhere storage code h p (length bs)) (loaded on over)
  next spent call_install = some spent
  next spent call_remove = some spent
  next spent (elsewhere p bs) = some spent
  next _ _ = none

  abbrev pub follow : Phase → List Event → Option Phase
  follow p [] = some p
  follow p (e ∷ es) = elim (next p e) [ none ↦ none | some q ↦ follow q es ]

-- What other code has made of memory.
abbrev pub outside : Bytes → List Event → Bytes
outside f [] = f
outside f (elsewhere p bs ∷ es) = outside (overlay f p bs) es
outside f (_ ∷ es) = outside f es

module _ (win : Windows) (d : Disassembler) (opcode storage code : ℕ) where
  open win use {Kernel}

  abbrev overwrite : (p : ℕ) → List ℕ → Memhook → M Kernel Memhook
  overwrite p bs h w = some (h, record w { bytes = overlay w.bytes p bs })

  -- What happens at an event; `storage` is the array that the first `install` makes.
  abbrev pub occur : Event → Memhook → M Kernel Memhook
  occur call_install h = install win d storage h
  occur call_remove h = remove win d h
  occur (bury other) h = overwrite h.hookee (jump_to opcode other h.hookee) h
  occur (unbury below) h = overwrite h.hookee (jump_to opcode below h.hookee) h
  occur (elsewhere p bs) h = overwrite p bs h

  abbrev pub run : List Event → Memhook → M Kernel Memhook
  run [] h = pure h
  run (e ∷ es) h = occur e h >>= run es
