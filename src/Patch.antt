-- ===== src/Patch.antt =====
-- src/patch: interval arithmetic, text compaction, data pointers and zero filling.
pub mod Relocs
pub mod Compact
pub mod ZeroFill
pub mod DataPtrs
