-- ===== src/Llmo.antt =====
-- memwrapper_llmo.hpp: low-level memory operations, and the objects that undo them.
pub mod Unprotect
pub mod Operations
pub mod Search
