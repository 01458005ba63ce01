-- ===== src/Pointer/Laws.antt =====
-- Pointer arithmetic is that of 32-bit words, and a move leaves null behind.
use memwrapper.Base.{ℕ, ◌<◌, ◌≡◌, refl, ap, arith, word_mod, false}
use memwrapper.Pointer.{MemoryPointer, construct, assign_move, front, back, plus, minus, to_bool}

-- Going back undoes going forward, and the other way round, for every step, across 0 too.
pub minus-plus :
    (p : MemoryPointer) (step : ℕ)
    → p.address < word_mod
    → (minus (plus p step) step ≡ p) × (plus (minus p step) step ≡ p)
unfolding minus plus front back construct
minus-plus p step h = (ap construct (omega arith), ap construct (omega arith))

-- A move assignment gives the target the source's address, and the source tests as null.
pub assign_move-null :
    (mp p : MemoryPointer) → ((assign_move mp p).0 ≡ mp) × (to_bool (assign_move mp p).1 ≡ false)
unfolding assign_move to_bool
assign_move-null mp p = (refl, refl)
