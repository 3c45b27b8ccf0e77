-- ===== src/Format/Elf.antt =====
-- src/format/elf: the packing of relative relocations.
pub mod Relr
