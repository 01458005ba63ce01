-- ===== src/Asm/Appends.antt =====
-- What each method of asm_allocator writes at the cursor, as bytes.
use memwrapper.Base.{ℕ, ◌≡◌}
use memwrapper.Machine.{World}
use memwrapper.Windows.{Windows}
use memwrapper.Detail.{get_relative_address, jump_oplen, byteof}
use memwrapper.Allocator.{BasicAllocator, now}
use memwrapper.Allocator.Appends.{Appends, HasRoom, db_bytes-Appends}
use memwrapper.Asm.{Registers, eax, esp, jmp, push, pop, mov_load, mov_store}
use memwrapper.Asm.Encoding.{
  jmp_bytes, push_bytes, pop_bytes, mov_load_bytes, mov_store_bytes, jmp-db_bytes, push-db_bytes,
  pop-db_bytes, mov_load-db_bytes, mov_store-db_bytes,
}

module _ (win : Windows) (a : BasicAllocator) (w : World win.Kernel) where
  pub jmp-Appends :
      (to : ℕ)
      → HasRoom win w.kernel a 5
      → Appends (jmp_bytes (get_relative_address to (now a) jump_oplen)) a w (jmp win to a w)
  unfolding byteof
  jmp-Appends to h = rw (jmp-db_bytes win to a) (db_bytes-Appends win (jmp_bytes _) a w h)

  -- The same, where the cursor is known as another expression.
  pub jmp-Appends_at :
      (to cursor : ℕ)
      → cursor ≡ now a
      → HasRoom win w.kernel a 5
      → Appends (jmp_bytes (get_relative_address to cursor jump_oplen)) a w (jmp win to a w)
  jmp-Appends_at to cursor e h = rw e (jmp-Appends to h)

  pub push-Appends :
      (r : Registers) → HasRoom win w.kernel a 1 → Appends (push_bytes r) a w (push win r a w)
  push-Appends r h = rw (push-db_bytes win r a) (db_bytes-Appends win (push_bytes r) a w h)

  pub pop-Appends :
      (r : Registers) → HasRoom win w.kernel a 1 → Appends (pop_bytes r) a w (pop win r a w)
  pop-Appends r h = rw (pop-db_bytes win r a) (db_bytes-Appends win (pop_bytes r) a w h)

  pub mov_load-Appends :
      HasRoom win w.kernel a 4 → Appends (mov_load_bytes eax esp 4) a w (mov_load win eax esp 4 a w)
  mov_load-Appends h =
      rw (mov_load-db_bytes win eax esp 4 a) (db_bytes-Appends win (mov_load_bytes eax esp 4) a w h)

  pub mov_store-Appends :
      (address : ℕ)
      → HasRoom win w.kernel a 5
      → Appends (mov_store_bytes address eax) a w (mov_store win address eax a w)
  unfolding byteof
  mov_store-Appends address h =
      rw (mov_store-db_bytes win address eax a)
        (db_bytes-Appends win (mov_store_bytes address eax) a w h)
