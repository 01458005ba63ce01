-- ===== src/Pointer.antt =====
-- memory_pointer of memwrapper/x86/memwrapper_basic.hpp: a union of a pointer and an address, so on
-- 32-bit Windows both members are the same word. The other modules write an address for it.
pub mod Laws
use memwrapper.Base.{ℕ, Bool, not, add32, sub32, ◌==◌}

pub record MemoryPointer : Type 0 where
  pub address : ℕ

-- The constructors for an address, a pointer and a constant object store the word.
unfoldable pub construct : (address : ℕ) → MemoryPointer
construct address = record { address = address }

-- The assignments of an address or a pointer return a copy of the new `*this`, here `.1`.
unfoldable pub assign : (address : ℕ) → MemoryPointer → MemoryPointer × MemoryPointer
assign address p = let p' = record p { address = address } in (p', p')

unfoldable pub assign_copy : (mp : MemoryPointer) → MemoryPointer → MemoryPointer × MemoryPointer
assign_copy mp p = let p' = record p { address = mp.address } in (p', p')

-- The source of a move assignment becomes null: it is `.1`, and the returned copy `.2`.
unfoldable pub assign_move :
    (mp : MemoryPointer) → MemoryPointer → MemoryPointer × MemoryPointer × MemoryPointer
assign_move mp p = let p' = record p { address = mp.address } in (p', record mp { address = 0 }, p')

unfoldable pub pointerof : MemoryPointer → ℕ
pointerof p = p.address

unfoldable pub addressof : MemoryPointer → ℕ
addressof p = p.address

-- Both casts keep the word.
unfoldable pub cast : MemoryPointer → ℕ
cast p = p.address

unfoldable pub front : (step : ℕ) → MemoryPointer → MemoryPointer
front step p = construct (add32 p.address step)

unfoldable pub back : (step : ℕ) → MemoryPointer → MemoryPointer
back step p = construct (sub32 p.address step)

-- operator+ and operator-
unfoldable pub plus : MemoryPointer → (step : ℕ) → MemoryPointer
plus p step = front step p

unfoldable pub minus : MemoryPointer → (step : ℕ) → MemoryPointer
minus p step = back step p

-- operator bool
unfoldable pub to_bool : MemoryPointer → Bool
to_bool p = not (p.address == 0)

-- The conversions to a pointer to an object, to `void*` and to `unsigned int`.
unfoldable pub to_object : MemoryPointer → ℕ
to_object p = cast p

unfoldable pub to_void : MemoryPointer → ℕ
to_void p = p.address

unfoldable pub to_unsigned : MemoryPointer → ℕ
to_unsigned p = p.address
