-- ===== src/Hook/Object/Phases/Memory.antt =====
-- What stands in memory while the trampoline is there.
use memwrapper.Base.{
  ℕ, ◌+◌, ◌≡◌, refl, sym, ap, ◌∙◌, fun_ext, Bool, true, false, List, [], arith, Apart, length,
  within, if◌then◌else◌,
}
use memwrapper.Machine.{Bytes, slice, overlay}
use memwrapper.Machine.Overlay.{overlay_at, overlay-slice, slice-overlay, slice-overlay_apart}
use memwrapper.Detail.{byteof}
use memwrapper.Hook.Object.{Memhook, hooker_offset}
use memwrapper.Hook.Object.Chained.{on_bytes, off_bytes}
use memwrapper.Hook.Object.Phases.{leads}
use memwrapper.Hook.Object.Reads.{jump_to}

-- What stands at `hooker_offset` in the trampoline.
abbrev pub switch_bytes : Memhook → (code : ℕ) → (on : Bool) → List ℕ
switch_bytes h code on = if on then on_bytes h code else off_bytes h code

-- `f` is `g` but for the instruction at the hooked function, which leads to the last hook or to the
-- trampoline, and the five bytes in the trampoline that lead to the hooker or not.
pub record Stands (opcode code : ℕ) (h : Memhook) (g : Bytes) (on : Bool) (over : List ℕ)
    (f : Bytes) : Type 0 where
  pub jump : slice f h.hookee 5 ≡ jump_to opcode (leads code over) h.hookee
  pub switch : slice f (code + hooker_offset) 5 ≡ switch_bytes h code on
  pub elsewhere :
      (a : ℕ) → within h.hookee 5 a ≡ false → within (code + hooker_offset) 5 a ≡ false → f a ≡ g a

-- A write over a range, read back and elsewhere.
slice-overlay_at :
    (f : Bytes) (p n : ℕ) (bs : List ℕ) → length bs ≡ n → slice (overlay f p bs) p n ≡ bs
slice-overlay_at f p n bs e = ap (slice (overlay f p bs) p) (sym e) ∙ slice-overlay f p bs

length-switch_bytes : (h : Memhook) (code : ℕ) (on : Bool) → length (switch_bytes h code on) ≡ 5
unfolding byteof
length-switch_bytes h code on = ground arith

-- Two functions that agree on a range of which both have the same slice.
slice_at : (f g : Bytes) (p n a : ℕ) → slice f p n ≡ slice g p n → within p n a ≡ true → f a ≡ g a
slice_at f g p n a e i =
    ground (arith, overlay-slice f f p n a, overlay-slice f g p n a, ap (λ bs. overlay f p bs a) e)

module _ (opcode code : ℕ) (h : Memhook) (g : Bytes) (apart : Apart code 4096 h.hookee 5) where
  -- Another instruction is written at the hooked function.
  pub Stands-overlay_jump :
      (on : Bool) (over over' : List ℕ) (f : Bytes)
      → Stands opcode code h g on over f
      → Stands opcode code h g on over'
          (overlay f h.hookee (jump_to opcode (leads code over') h.hookee))
  unfolding byteof
  Stands-overlay_jump on over over' f s = record {
    jump = slice-overlay_at f h.hookee 5 _ refl;
    switch =
        slice-overlay_apart f h.hookee _ (code + hooker_offset) 5 (omega (arith, apart)) ∙ s.switch;
    elsewhere = λ a x y. ground (
      arith,
      overlay_at f h.hookee (jump_to opcode (leads code over') h.hookee) a,
      s.elsewhere a,
    );
  }

  -- The trampoline is switched on or off.
  pub Stands-overlay_switch :
      (on on' : Bool) (over : List ℕ) (f : Bytes)
      → Stands opcode code h g on over f
      → Stands opcode code h g on' over (overlay f (code + hooker_offset) (switch_bytes h code on'))
  Stands-overlay_switch on on' over f s = record {
    jump =
        slice-overlay_apart f (code + hooker_offset) (switch_bytes h code on') h.hookee 5
          (omega (arith, apart, length-switch_bytes h code on'))
        ∙ s.jump;
    switch =
        slice-overlay_at f (code + hooker_offset) 5 (switch_bytes h code on')
          (length-switch_bytes h code on');
    elsewhere = λ a x y. ground (
      arith,
      overlay_at f (code + hooker_offset) (switch_bytes h code on') a,
      length-switch_bytes h code on',
      s.elsewhere a,
    );
  }

  -- When it is on and no later hook is there, memory is as the installation left it.
  pub Stands-eq :
      (f : Bytes) → Stands opcode code h g true [] g → Stands opcode code h g true [] f → f ≡ g
  Stands-eq f t s = fun_ext λ a. ground (
    arith,
    slice_at f g h.hookee 5 a (s.jump ∙ sym t.jump),
    slice_at f g (code + hooker_offset) 5 a (s.switch ∙ sym t.switch),
    s.elsewhere a,
  )
