-- ===== src/Hook.antt =====
-- memhook of memwrapper/x86/memwrapper_hook.hpp: a hook on a function by a jump at its start.
pub mod Disassembler
pub mod Relocation
pub mod Object
pub mod Measure
