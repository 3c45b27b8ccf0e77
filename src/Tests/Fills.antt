-- ===== src/Tests/Fills.antt =====
-- src/patch/zerofill.rs on a file of six bytes: .text is the four bytes from offset 1 on, at 100.
use trim.Prelude.{ℕ, List, [], ◌∷◌, some, ◌≡◌, arith}
use trim.Types.{Arch, Section, vaddr_to_offset}
use trim.Analysis.Cfg.{DeadBlock}
use trim.Patch.ZeroFill.{Filled, fill_byte, zero_fill_blocks}
use trim.Patch.ZeroFill.Fill.{NoWrap, RegionsFilled, block_regions, zero_fill_blocks_lem}

abbrev file : List ℕ
file = 1 ∷ 2 ∷ 3 ∷ 4 ∷ 5 ∷ 6 ∷ []

abbrev sections : List Section
sections = record { name = ".text"; size = 4; vaddr = 100; offset = 1; align = 1 } ∷ []

abbrev blocks : List DeadBlock
blocks = record { func_name = "f"; addr = 101; size = 2 } ∷ []

no_wrap : NoWrap sections (101, 2)
unfolding vaddr_to_offset
no_wrap off h = ground arith

zero_fill_blocks_lem_example :
    (out : Filled) × (zero_fill_blocks file blocks sections Arch.x86_64 ≡ some out)
    × RegionsFilled (fill_byte Arch.x86_64) sections file (block_regions blocks) out.bytes
zero_fill_blocks_lem_example = zero_fill_blocks_lem file blocks sections Arch.x86_64 (no_wrap, tt)
