-- ===== src/Allocator/Writes.antt =====
-- Writing through the cursor: what fits is written at the cursor, the rest is dropped, and nothing
-- outside the region changes.
use Prim.Native.Nat.{min}
use memwrapper.Base.{
  ℕ, zero, suc, ◌+◌, ◌-◌, ◌≤◌, ◌<◌, ◌≡◌, refl, ap, ◌∙◌, ◌∙◌, true, false, some, List, [], ◌∷◌,
  arith, length, take-all, take, word_mod, ltb, add32,
}
use mathlib.Core.Path.{ap₂}
use memwrapper.Machine.{Bytes, World, store, update, overlay}
use memwrapper.Machine.Run.{CanWrite}
use memwrapper.Windows.{Windows, cpu}
use memwrapper.Allocator.{BasicAllocator, db, db_bytes}

-- The cursor lies in the region or at its end, and the test of `db` cannot wrap.
pub record IsValid (a : BasicAllocator) : Type 0 where
  pub in_region : a.offset ≤ a.size
  pub word : a.size + 1 < word_mod

abbrev pub room : BasicAllocator → ℕ
room a = a.size - a.offset

abbrev pub advance : BasicAllocator → ℕ → BasicAllocator
advance a n = record a { offset = a.offset + n }

module _ (win : Windows) where
  open win use {Kernel}

  db-full :
      (b : ℕ) (a : BasicAllocator) (w : World Kernel)
      → IsValid a
      → room a ≡ 0
      → db win b a w ≡ some (a, w)
  unfolding db
  db-full b a w v h = ground arith

  pub db-store :
      (b : ℕ) (a : BasicAllocator) (w : World Kernel)
      → IsValid a
      → 0 < room a
      → CanWrite (cpu win) w.kernel a.code a.size
      → db win b a w ≡ some (advance a 1, record w { bytes = update w.bytes (a.code + a.offset) b })
  unfolding db store
  db-store b a w v h c =
      rw (fits, writable)
        (ap
          (λ k.
            some
              (record a { offset = k }, record w { bytes = update w.bytes (a.code + a.offset) b }))
          (omega arith))
    where
      fits : ltb a.size (add32 a.offset 1) ≡ false
      fits = ground arith

      writable : win.writable (win.protection w.kernel (a.code + a.offset)) ≡ true
      writable = c a.offset (omega arith)

  db_bytes-room :
      (bs : List ℕ) (r : ℕ) (a : BasicAllocator) (w : World Kernel)
      → room a ≡ r
      → IsValid a
      → CanWrite (cpu win) w.kernel a.code a.size
      → db_bytes win bs a w
        ≡ some (
          advance a (min r (length bs)),
          record w { bytes = overlay w.bytes (a.code + a.offset) (take r bs) },
        )
  unfolding db_bytes overlay
  db_bytes-room [] zero a w e v c = ap (λ k. some (record a { offset = k }, w)) (omega arith)
  db_bytes-room [] (suc r) a w e v c = ap (λ k. some (record a { offset = k }, w)) (omega arith)
  db_bytes-room (b ∷ bs) zero a w e v c =
      rw (db-full b a w v e) (
        db_bytes-room bs zero a w e v c ∙ ap (λ k. some (record a { offset = k }, w)) (omega arith))
  db_bytes-room (b ∷ bs) (suc r) a w e v c = rw (db-store b a w v (omega arith) c) (
      db_bytes-room bs r (advance a 1) (record w { bytes = next }) (omega arith)
        (record { in_region = omega arith; word = v.word }) c
      ∙ ap₂ (λ k p. some (record a { offset = k }, record w { bytes = overlay next p (take r bs) }))
          (omega arith) (omega arith))
    where
      next : Bytes
      next = update w.bytes (a.code + a.offset) b

  -- What fits of a list of bytes is written at the cursor, which moves past it; the rest is
  -- dropped, and so nothing beyond the region changes.
  pub db_bytes-overlay :
      (bs : List ℕ) (a : BasicAllocator) (w : World Kernel)
      → IsValid a
      → CanWrite (cpu win) w.kernel a.code a.size
      → db_bytes win bs a w
        ≡ some (
          advance a (min (room a) (length bs)),
          record w { bytes = overlay w.bytes (a.code + a.offset) (take (room a) bs) },
        )
  db_bytes-overlay bs a w v c = db_bytes-room bs (room a) a w refl v c

  pub db_bytes_fits :
      (bs : List ℕ) (a : BasicAllocator) (w : World Kernel)
      → IsValid a
      → CanWrite (cpu win) w.kernel a.code a.size
      → a.offset + length bs ≤ a.size
      → db_bytes win bs a w
        ≡ some (advance a (length bs), record w { bytes = overlay w.bytes (a.code + a.offset) bs })
  db_bytes_fits bs a w v c fits =
      db_bytes-overlay bs a w v c
      ∙ ap₂
          (λ k xs. some (advance a k, record w { bytes = overlay w.bytes (a.code + a.offset) xs }))
          (omega arith) (take-all (room a) bs (omega arith))
