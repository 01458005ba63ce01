-- ===== src/Scoped.antt =====
-- The classes scoped_write, scoped_copy and scoped_fill of memwrapper/x86/memwrapper_llmo.hpp. A
-- method returns the object as it is afterwards.
pub mod Backup
pub mod Write
pub mod Copy
pub mod Fill
