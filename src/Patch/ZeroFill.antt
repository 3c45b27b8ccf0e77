-- ===== src/Patch/ZeroFill.antt =====
-- src/patch/zerofill.rs: dead regions are overwritten. `none` where a slice out of range panics.
pub mod Fill
use trim.Prelude.{
  ℕ, suc, true, false, List, [], ◌∷◌, Option, none, some, String, leb, wrapping_add, length,
  replicate, map,
}
use trim.Types.{Arch, Section, vaddr_to_offset}
use trim.Types.Pointer.{splice}
use trim.Analysis.Cfg.{DeadBlock}

unfoldable pub fill_byte : Arch → ℕ
fill_byte Arch.x86_64 = 0xcc
fill_byte Arch.x86_32 = 0xcc
fill_byte _ = 0

-- The file, the regions filled and their bytes.
pub record Filled : Type 0 where
  pub bytes : List ℕ
  pub count : ℕ
  pub total_bytes : ℕ

-- One round of the loops: a region, given by its address and size, is filled if the file holds it.
unfoldable pub fill_region : ℕ → List Section → Filled → ℕ → ℕ → Option Filled
fill_region fill sections state addr size = elim (vaddr_to_offset addr sections) [
  | none ↦ some state
  | some off ↦ elim (leb (wrapping_add off size) (length state.bytes)) [
    | false ↦ some state
    | true ↦ elim (splice state.bytes off (wrapping_add off size) (replicate size fill)) [
      | none ↦ none
      | some filled ↦ some (record {
        bytes = filled;
        count = suc state.count;
        total_bytes = wrapping_add state.total_bytes size;
      })
    ]
  ]
]

unfoldable pub fill_regions : ℕ → List Section → List (ℕ × ℕ) → Filled → Option Filled
fill_regions fill sections [] state = some state
fill_regions fill sections ((addr, size) ∷ regions) state =
    elim (fill_region fill sections state addr size) [
      | none ↦ none
      | some next ↦ fill_regions fill sections regions next
    ]

abbrev pub unfilled : List ℕ → Filled
unfilled bytes = record { bytes = bytes; count = 0; total_bytes = 0 }

unfoldable pub zero_fill : List ℕ → List (String × ℕ × ℕ) → List Section → Option Filled
zero_fill bytes dead sections =
    fill_regions 0 sections (map (λ d. (d.1, d.2)) dead) (unfilled bytes)

unfoldable pub zero_fill_blocks : List ℕ → List DeadBlock → List Section → Arch → Option Filled
zero_fill_blocks bytes dead_blocks sections arch =
    fill_regions (fill_byte arch) sections (map (λ b. (b.addr, b.size)) dead_blocks)
      (unfilled bytes)
