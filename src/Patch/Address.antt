-- ===== src/Patch/Address.antt =====
-- Where a unit for a module writes, by the constructor that makes it.
use memwrapper.Base.{ℕ, ◌*◌, ◌<◌, ◌≡◌, ◌↔◌, add32, word_mod, arith}
use memwrapper.Machine.{World}
use memwrapper.Windows.{Windows, WindowsLaws}
use memwrapper.Patch.{module_address_of_pointer, module_address_of_integer}

scaled_eq : (h o : ℕ) → o < word_mod → add32 h (o * 4) ≡ add32 h o → o ≡ 0
scaled_eq h o lt e = omega arith

module _ (win : Windows) (laws : WindowsLaws win) where
  open win use {Kernel}

  -- For the same module and offset, the constructor that is given the original data and the one
  -- that reads it agree on the address exactly when the offset is 0: the first scales the offset
  -- by the size of what a module handle points at.
  pub module_addresses-eq_iff :
      (mod_name offset : ℕ) (w : World Kernel)
      → offset < word_mod
      → (module_address_of_pointer win mod_name offset w
          ≡ module_address_of_integer win mod_name offset w)
        ↔ (offset ≡ 0)
  unfolding module_address_of_pointer module_address_of_integer
  module_addresses-eq_iff mod_name offset w lt =
      rw laws.instance_size_int
        ((λ e. scaled_eq (win.get_module_handle w.bytes mod_name w.kernel) offset lt e), λ e. rw e)
