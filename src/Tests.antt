-- ===== src/Tests.antt =====
-- Runs of the model, and the theorems at concrete inputs.
mod Memory
mod Scoped
mod Patch
mod Detail
mod Allocator
mod Asm
mod Hook
mod Search
mod Cycle
mod Constructed
mod Entry
mod Relocation
mod Chained
mod Redirected
mod Captures
mod Phases
mod Nested
mod Whole
mod Runs
