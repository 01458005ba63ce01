-- ===== src/Patch.antt =====
-- scoped_patch_unit and scoped_patch of memwrapper/x86/memwrapper_llmo.hpp. A std::vector<uint8_t>
-- is its storage, a range of memory; where a vector is made, the address that the allocator chose
-- for its storage is an argument.
pub mod Jobs
pub mod Units
pub mod Undo
pub mod Toggles
pub mod Captures
pub mod Adds
pub mod Copies
pub mod Block
pub mod Address
use memwrapper.Base.{ℕ, ◌*◌, add32, Bool, List, [], ◌∷◌, ◌++◌, if◌then◌else◌}
use memwrapper.Machine.{Bytes, M, World, pure, ◌>>=◌, ◌>>◌, memcpy, memset}
use memwrapper.Windows.{Windows, cpu}
use memwrapper.Llmo.Operations.{copy_memory}

-- byte_vector
pub record ByteVector : Type 0 where
  pub start : ℕ
  pub size : ℕ

pub record ScopedPatchUnit : Type 0 where
  pub address : ℕ
  pub replacement : ByteVector
  pub original : ByteVector

module _ (win : Windows) where
  open win use {Kernel}

  -- A vector's copy constructor: the elements are copied to new storage.
  unfoldable pub copy_vector : ByteVector → (storage : ℕ) → M Kernel ByteVector
  copy_vector v storage = do
    memcpy (cpu win) storage v.start v.size
    pure (record { start = storage; size = v.size })

  -- `resize` of an empty vector: the new elements are zeros.
  unfoldable pub zero_vector : (storage size : ℕ) → M Kernel ByteVector
  zero_vector storage size = do
    memset (cpu win) storage 0 size
    pure (record { start = storage; size = size })

  -- `GetModuleHandle(mod.data()) + offset.addressof()` is pointer arithmetic on a module handle.
  unfoldable pub module_address_of_pointer : (mod_name offset : ℕ) → World Kernel → ℕ
  module_address_of_pointer mod_name offset w =
      add32 (win.get_module_handle w.bytes mod_name w.kernel) (offset * win.instance_size)

  -- `reinterpret_cast<uint32_t>(GetModuleHandle(mod.data())) + offset.addressof()`
  unfoldable pub module_address_of_integer : (mod_name offset : ℕ) → World Kernel → ℕ
  module_address_of_integer mod_name offset w =
      add32 (win.get_module_handle w.bytes mod_name w.kernel) offset

  -- The constructor that takes an address and the original data.
  unfoldable pub construct :
      (address : ℕ) (replacement original : ByteVector) (storage storage' : ℕ)
      → M Kernel ScopedPatchUnit
  construct address replacement original storage storage' = do
    r ← copy_vector replacement storage
    o ← copy_vector original storage'
    pure (record { address = address; replacement = r; original = o })

  -- The constructor that takes an address, and reads the original data there.
  unfoldable pub construct_read :
      (address : ℕ) (replacement : ByteVector) (storage storage' : ℕ) → M Kernel ScopedPatchUnit
  construct_read address replacement storage storage' = do
    r ← copy_vector replacement storage
    o ← zero_vector storage' replacement.size
    copy_memory win o.start address o.size
    pure (record { address = address; replacement = r; original = o })

  -- The constructor that takes a module, an offset and the original data.
  unfoldable pub construct_module :
      (mod_name offset : ℕ) (replacement original : ByteVector) (storage storage' : ℕ)
      → M Kernel ScopedPatchUnit
  construct_module mod_name offset replacement original storage storage' w =
      construct (module_address_of_pointer mod_name offset w) replacement original storage storage'
        w

  -- The constructor that takes a module and an offset, and reads the original data there.
  unfoldable pub construct_module_read :
      (mod_name offset : ℕ) (replacement : ByteVector) (storage storage' : ℕ)
      → M Kernel ScopedPatchUnit
  construct_module_read mod_name offset replacement storage storage' = do
    r ← copy_vector replacement storage
    address ← λ w. pure (module_address_of_integer mod_name offset w) w
    o ← zero_vector storage' replacement.size
    copy_memory win o.start address o.size
    pure (record { address = address; replacement = r; original = o })

  unfoldable pub install_unit : ScopedPatchUnit → M Kernel (Unit {0})
  install_unit u = copy_memory win u.address u.replacement.start u.replacement.size

  unfoldable pub restore_unit : ScopedPatchUnit → M Kernel (Unit {0})
  restore_unit u = copy_memory win u.address u.original.start u.original.size

  -- The copy constructor.
  unfoldable pub copy_unit : ScopedPatchUnit → (storage storage' : ℕ) → M Kernel ScopedPatchUnit
  copy_unit u storage storage' = do
    r ← copy_vector u.replacement storage
    o ← copy_vector u.original storage'
    pure (record { address = u.address; replacement = r; original = o })

-- scoped_patch: its one member is the vector of units.
pub record ScopedPatch : Type 0 where
  pub units : List ScopedPatchUnit

-- A unit of the caller's vector, and the storage that the copies of its two vectors get.
pub record CopySource : Type 0 where
  pub unit : ScopedPatchUnit
  pub storage : ℕ
  pub storage' : ℕ

abbrev is_empty : List ScopedPatchUnit → Bool
is_empty [] = Bool.true
is_empty (_ ∷ _) = Bool.false

module _ (win : Windows) where
  open win use {Kernel}

  -- The copy constructor of the vector of units.
  unfoldable pub copy_units : List CopySource → M Kernel (List ScopedPatchUnit)
  copy_units [] = pure []
  copy_units (s ∷ ss) = do
    u ← copy_unit win s.unit s.storage s.storage'
    us ← copy_units ss
    pure (u ∷ us)

  -- The constructor of scoped_patch.
  unfoldable pub construct_patch : List CopySource → M Kernel ScopedPatch
  construct_patch sources = do us ← copy_units sources; pure (record { units = us })

  unfoldable pub install_each : List ScopedPatchUnit → M Kernel (Unit {0})
  install_each [] = pure tt
  install_each (u ∷ us) = install_unit win u >> install_each us

  unfoldable pub restore_each : List ScopedPatchUnit → M Kernel (Unit {0})
  restore_each [] = pure tt
  restore_each (u ∷ us) = restore_unit win u >> restore_each us

  unfoldable pub install : ScopedPatch → M Kernel (Unit {0})
  install p = if is_empty p.units then pure tt else install_each p.units

  unfoldable pub remove : ScopedPatch → M Kernel (Unit {0})
  remove p = if is_empty p.units then pure tt else restore_each p.units

  unfoldable pub toggle : (status : Bool) → ScopedPatch → M Kernel (Unit {0})
  toggle status p = if status then install p else remove p

  unfoldable pub add : ScopedPatchUnit → (storage storage' : ℕ) → ScopedPatch → M Kernel ScopedPatch
  add unit storage storage' p = do
    copy ← copy_unit win unit storage storage'
    pure (record p { units = p.units ++ (copy ∷ []) })

  -- The destructor.
  unfoldable pub destroy : ScopedPatch → M Kernel (Unit {0})
  destroy p = remove p

  -- `patch.install(); body` at the end of a block that has made the patch.
  unfoldable pub patched_block : ScopedPatch → M Kernel (Unit {0}) → M Kernel (Unit {0})
  patched_block patch body = do install patch; body; destroy patch

  -- `{ scoped_patch patch{ units }; patch.install(); body }`
  unfoldable pub block : List CopySource → M Kernel (Unit {0}) → M Kernel (Unit {0})
  block sources body = do patch ← construct_patch sources; patched_block patch body
