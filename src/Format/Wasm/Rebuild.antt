-- ===== src/Format/Wasm/Rebuild.antt =====
-- src/format/wasm/mod.rs: the Code section is built anew. A slice out of range panics in the source:
-- `none` here.
pub mod Excise
pub mod Section
pub mod Parts
pub mod Whole
pub mod Stubbed
use trim.Prelude.{
  wrapping_add, ℕ, zero, suc, ◌+◌, ◌-◌, ◌%◌, ◌^◌, nat_eq, min, Bool, true, false, List, [], ◌∷◌,
  ◌++◌, map, Option, none, some, leb, ltb, ◌==◌, ◌&&◌, if◌then◌else◌, String, length, get_elem?,
  take, drop,
}
use trim.Prelude.Sets.{contains}
use trim.Types.Pointer.{slice}
use trim.Analysis.Cfg.{DeadBlock}
use trim.Patch.Relocs.{Intervals}
use trim.Format.Ranges.{BlockRanges, DeadMap, push_range, ranges_of, sort_ranges}
use trim.Format.Wasm.Leb.{read_leb128_u32, write_leb128_u32}

-- The loop over the sections, on the length of the file: the header of each has a byte.
unfoldable pub code_section_from : ℕ → List ℕ → ℕ → Option (ℕ × ℕ)
code_section_from zero bytes pos = none
code_section_from (suc fuel) bytes pos = elim (get_elem? bytes pos) [
  | none ↦ none
  | some section_id ↦
      let (section_size, new_pos) = read_leb128_u32 bytes (pos + 1) in
      let further = code_section_from fuel bytes (new_pos + section_size) in
      if section_id == 0x0a then some (pos, new_pos + section_size) else further
]

-- `\0asm`
abbrev pub has_magic : List ℕ → Bool
has_magic (a ∷ b ∷ c ∷ d ∷ _) = (a == 0x00 && b == 0x61) && (c == 0x73 && d == 0x6d)
has_magic _ = false

unfoldable pub parse_code_section_bounds : List ℕ → Option (ℕ × ℕ)
parse_code_section_bounds bytes =
    if ltb (length bytes) 8
    then none
    else if has_magic bytes
    then code_section_from (length bytes) bytes 8
    else none

-- The places of the bodies in the Code section.
unfoldable pub bodies_from : ℕ → List ℕ → ℕ → List (ℕ × ℕ)
bodies_from zero bytes pos = []
bodies_from (suc n) bytes pos =
    let (body_size, start) = read_leb128_u32 bytes pos in
    (start, start + body_size) ∷ bodies_from n bytes (start + body_size)

-- The first body that a block lies in.
unfoldable pub body_of : ℕ → ℕ → List (ℕ × ℕ) → Option ℕ
body_of db_start db_end [] = none
body_of db_start db_end ((start, end) ∷ funcs) =
    if leb start db_start && leb db_end end then some start else body_of db_start db_end funcs

unfoldable pub assign_blocks : List DeadBlock → List (ℕ × ℕ) → BlockRanges → BlockRanges
assign_blocks [] funcs result = result
assign_blocks (db ∷ blocks) funcs result =
    assign_blocks blocks funcs (elim (body_of db.addr (wrapping_add db.addr db.size) funcs) [
      | none ↦ result
      | some start ↦ push_range start (db.addr, wrapping_add db.addr db.size) result
    ])

unfoldable pub build_block_ranges : List ℕ → ℕ → List DeadBlock → BlockRanges
build_block_ranges bytes code_start [] = []
build_block_ranges bytes code_start (db ∷ blocks) =
    let count_pos = (read_leb128_u32 bytes (code_start + 1)).1 in
    let (num_funcs, bodies) = read_leb128_u32 bytes count_pos in
    map (λ (r : ℕ × Intervals). (r.0, sort_ranges r.1))
      (assign_blocks (db ∷ blocks) (bodies_from num_funcs bytes bodies) [])

-- The loop of `excise_ranges`.
unfoldable pub excise_from : List ℕ → ℕ → ℕ → Intervals → List ℕ
excise_from body base pos [] = drop pos body
excise_from body base pos ((abs_start, abs_end) ∷ ranges) =
    let rel_start = abs_start - base in
    let rel_end = min (abs_end - base) (length body) in
    (if ltb pos rel_start && leb rel_start (length body)
      then take (rel_start - pos) (drop pos body)
      else [])
    ++ excise_from body base rel_end ranges

unfoldable pub excise_ranges : List ℕ → ℕ → Intervals → List ℕ
excise_ranges body base ranges = excise_from body base 0 ranges

unfoldable pub emit_dead_func : List ℕ → ℕ → ℕ → ℕ → Option (List ℕ)
emit_dead_func bytes entry_start entry_end code_end =
    if leb (entry_end - entry_start) 4
    then slice bytes entry_start (min entry_end code_end)
    else some (0x03 ∷ 0x00 ∷ 0x00 ∷ 0x0b ∷ [])

-- `write_leb128_u32(len as u32)` and the bytes.
unfoldable pub sized : List ℕ → List ℕ
sized bytes = write_leb128_u32 (length bytes % 2 ^ 32) ++ bytes

unfoldable pub rebuild_entry : List ℕ → ℕ → List ℕ → BlockRanges → ℕ → ℕ → ℕ → Option (List ℕ)
rebuild_entry bytes code_end dead_offsets block_ranges entry_start bcs entry_end =
    if contains dead_offsets bcs
    then emit_dead_func bytes entry_start entry_end code_end
    else (elim (ranges_of bcs block_ranges) [
      | some ranges ↦ elim (slice bytes bcs (min entry_end code_end)) [
        | none ↦ none
        | some body ↦ some (sized (excise_ranges body bcs ranges))
      ]
      | none ↦ slice bytes entry_start (min entry_end code_end)
    ])

unfoldable pub rebuild_from : ℕ → List ℕ → ℕ → List ℕ → BlockRanges → ℕ → Option (List ℕ)
rebuild_from zero bytes code_end dead_offsets block_ranges pos = some []
rebuild_from (suc n) bytes code_end dead_offsets block_ranges pos =
    let (body_size, bcs) = read_leb128_u32 bytes pos in
    elim (rebuild_entry bytes code_end dead_offsets block_ranges pos bcs (bcs + body_size)) [
      | none ↦ none
      | some entry ↦
          elim (rebuild_from n bytes code_end dead_offsets block_ranges (bcs + body_size)) [
            | none ↦ none
            | some rest ↦ some (entry ++ rest)
          ]
    ]

unfoldable pub wrap_code_section : ℕ → List ℕ → List ℕ
wrap_code_section num_functions bodies = 0x0a ∷ sized (write_leb128_u32 num_functions ++ bodies)

unfoldable pub rebuild_code_section : List ℕ → ℕ → ℕ → List ℕ → BlockRanges → Option (List ℕ)
rebuild_code_section bytes code_start code_end dead_offsets block_ranges =
    let count_pos = (read_leb128_u32 bytes (code_start + 1)).1 in
    let (num_functions, bodies) = read_leb128_u32 bytes count_pos in
    elim (rebuild_from num_functions bytes code_end dead_offsets block_ranges bodies) [
      | none ↦ none
      | some rebuilt ↦ some (wrap_code_section num_functions rebuilt)
    ]

abbrev pub block_bytes : List DeadBlock → ℕ
block_bytes [] = 0
block_bytes (db ∷ blocks) = wrapping_add db.size (block_bytes blocks)

-- The new file, and the counts of functions, saved bytes, blocks and bytes in blocks.
unfoldable pub reassemble_wasm : List ℕ → DeadMap → List DeadBlock → Option (List ℕ × ℕ × ℕ × ℕ × ℕ)
reassemble_wasm bytes dead dead_blocks = elim (parse_code_section_bounds bytes) [
  | none ↦ some (bytes, 0, 0, 0, 0)
  | some (code_start, code_end) ↦
      let block_ranges = build_block_ranges bytes code_start dead_blocks in
      let dead_offsets = map (λ (d : String × (ℕ × ℕ)). d.1.0) dead in
      elim (rebuild_code_section bytes code_start code_end dead_offsets block_ranges) [
        | none ↦ none
        | some new_code ↦
            if leb code_end (length bytes)
            then some (
              take code_start bytes ++ (new_code ++ drop code_end bytes),
              length dead,
              (code_end - code_start) - length new_code,
              length dead_blocks,
              block_bytes dead_blocks,
            )
            else none
      ]
]
