-- ===== src/Lib.antt =====
-- trim removes dead code from compiled binaries. Its pipeline decodes the code section, builds a
-- reference graph of functions, finds the functions and blocks that nothing reaches, cuts them out of
-- .text, and moves what points past the cut. This library models the parts of that pipeline that do
-- not depend on a file format, the decoders and branch patchers of the instruction sets other than x86,
-- the packing of an ELF file's relative relocations, and the whole treatment of WebAssembly modules and
-- Java class files, which have a pipeline of their own: dead functions or methods, dead code in the live
-- ones, and a file built anew without them.
--
-- The parts and their files (paths from the repository's root):
--   Types            src/types.rs: the data types, `vaddr_to_offset`; Types/Pointer has `read_ptr` and
--                    `write_ptr`
--   Decode.Callgraph src/decode/callgraph.rs: addresses resolved to functions, the reference graph
--   Decode.Scan      src/decode/scan.rs: pointers to code in the data sections
--   Analysis.Reachability
--                    src/analysis/reachability.rs, roots.rs and the kept symbols of src/constants.rs:
--                    `bfs`, `compute_live_set`, `find_dead`, `determine_roots`
--   Analysis.Lattice src/analysis/lattice.rs: the values of constant propagation
--   Analysis.Cfg     src/analysis/cfg.rs and noreturn.rs: regions behind calls that never return;
--                    Cfg/Build has the control flow graph, Cfg/Unreachable the blocks that it does not
--                    reach
--   Analysis.Dominance
--                    src/analysis/dominance.rs: predecessors and the reverse post-order of blocks
--   Patch.Relocs     src/patch/relocs.rs: intervals of dead addresses, their merge, `shift_at` and
--                    `total_shift`, and the padding that is absorbed (`defrag_intervals`)
--   Patch.Compact    src/patch/compact.rs: `compaction_fits` and `compact_text`
--   Patch.ZeroFill   src/patch/zerofill.rs: dead regions overwritten in place
--   Patch.DataPtrs   src/patch/data_ptrs.rs: pointers into .text moved in data sections
--   Arch             src/arch: what the decoders and patchers share; Arch/Moved has how .text moves.
--                    Arch/Aarch64, Arm32, LoongArch, Mips, RiscV and S390x have the decoder and the
--                    branch patcher of an instruction set each (src/arch/aarch64.rs, aarch64_patch.rs
--                    and so on); RiscV/Auipc the pairs of RISC-V instructions with one address
--   Format.Elf.Relr  src/format/elf/relr.rs: the coding of relative relocations as RELR words; Header has
--                    the parsed tables and the reads, Split the choice of relocations, Drain the
--                    refusals, the new tags and the bytes that leave the file
--   Format.Wasm      src/format/wasm/mod.rs: Leb has the numbers of the format, Graph the module and its
--                    live functions, Scan the dead code in bodies, Rebuild the new Code section and file
--   Format.Java      src/format/java: Classfile is the parser (classfile.rs), Bytecode the walks over a
--                    method's code and Compact its removal (bytecode.rs), Methods the dead methods and
--                    the new class file (mod.rs)
--   Format.Ranges    the maps that these two keep
--   Prelude          shared names, tests, lists and machine words; Prelude/Worklist is the search that
--                    the reachability of functions, methods and blocks share
--   Tests            runs on small inputs, and the theorems at inputs that meet their hypotheses
--
-- The names of definitions and fields are those of the source. A `u64` and a `usize` are natural
-- numbers with the wrap-around of the source's operators written out (`wrapping_add`,
-- `saturating_add`, `checked_add`): a `usize` has 64 bits, and plain additions wrap, as they do in a
-- release build. An `i64` is its 64-bit pattern. Bytes are numbers. A hash map or set is a list in the
-- order in which it is walked; no theorem fixes this order. The standard library's sort is insertion
-- sort. Where the source would panic on a slice out of range, the model returns `none`.
--
-- Bounds. The two searches run on the number of edges and of roots as fuel, which bounds what the
-- queue ever holds; `none` would mean too little fuel, and the theorems say that a result is returned.
-- The fixpoint loop of `compute_live_set` runs on one round more than there are functions, since each
-- round but the last makes a function live. The loops of `expand_one` run on the distance to the start
-- of .text and on the end address. The loops over data sections run on the length of the file, which
-- is more than they have words.
--
-- A decoder of instructions of more than one length runs on the length of the section, of which each
-- instruction takes some. A shared new-word function stands for the patchers' repeated test of the two
-- shifts (`retarget`); 32-bit signed intermediate values are 64-bit patterns, of which only the bits
-- that the instruction holds are used.
--
-- The search of a WebAssembly module marks a function when it is queued, and runs on the number of roots
-- and calls, which bounds the functions that are ever marked. Its scan of a body and its loops over
-- sections run on the length of the bytes, of which each round takes one at least. A walk over Java
-- bytecode goes over the bytes of the code and skips those of operands, so that it needs no fuel; the
-- position is kept beside. The offsets of Java's branches are patterns as above. The search over the
-- calls of a class runs on the number of roots and calls.
--
-- The search of dominance.rs runs on the number of blocks and edges: a visit pays for what it pushes.
--
-- An error of relr.rs is its message without the numbers in it. The encoder runs on the number of
-- addresses, one of which each round takes.
--
-- Not modelled: x86 (src/arch/x86.rs and x86_patch.rs rest on a third-party decoder) and the dispatch
-- between decoders, the padding bytes of src/arch (a parameter of Patch.Relocs), the file formats of
-- src/format but for those above and the part of relr.rs, which is also without its parsing and
-- rewriting,
-- inference of function bounds (src/decode/infer.rs), dominators and their frontiers, SSA form, constant propagation over
-- the control flow graph and the register effects of instructions (the rest of src/analysis), and the
-- command line and the dispatch between formats (src/main.rs, src/lib.rs). A binary search that the
-- call graph uses is a parameter.
-- What the crate wasmparser reads in a file, the name that `format!` makes, and Rust's conversion from
-- UTF-8 are parameters.
pub mod Prelude
pub mod Types
pub mod Patch
pub mod Analysis
pub mod Decode
pub mod Arch
pub mod Format
pub mod Tests
