-- ===== src/Format/Wasm.antt =====
-- src/format/wasm/mod.rs: WebAssembly modules. Leb has the numbers, Graph the functions that are
-- not reached, Scan the dead code in bodies, and Rebuild the new Code section. What wasmparser
-- makes of a file is a parameter.
pub mod Leb
pub mod Graph
pub mod Scan
pub mod Rebuild
