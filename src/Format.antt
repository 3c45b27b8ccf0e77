-- ===== src/Format.antt =====
-- src/format: file formats.
pub mod Elf
pub mod Ranges
pub mod Wasm
pub mod Java
