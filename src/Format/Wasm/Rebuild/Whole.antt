-- ===== src/Format/Wasm/Rebuild/Whole.antt =====
-- src/format/wasm/mod.rs: the whole file around the Code section.
use trim.Prelude.{
  ℕ, ◌+◌, ◌-◌, ◌≤◌, ◌<◌, true, false, List, [], ◌∷◌, ◌++◌, map, Option, none, some, ◌≡◌, refl, sym,
  ◌∙◌, ap, arith, ltb, leb, String, length, take, drop, All, length-append, drop-append, le→leb,
}
use mathlib.Core.List.{append_assoc}
use trim.Analysis.Cfg.{DeadBlock}
use trim.Format.Ranges.{BlockRanges, DeadMap}
use trim.Format.Wasm.Leb.{read_leb128_u32}
use trim.Format.Wasm.Leb.RoundTrip.{IsLeb, read_leb128_u32-IsLeb}
use trim.Format.Wasm.Rebuild.{
  build_block_ranges, rebuild_from, wrap_code_section, rebuild_code_section, block_bytes,
  reassemble_wasm, code_section_from, parse_code_section_bounds,
}
use trim.Format.Wasm.Rebuild.Section.{
  Entry, IsEntry, entry_bytes, new_entries, rebuild_from-new_entries,
}
use trim.Format.Wasm.Rebuild.Parts.{Part, part_bytes, IsPart, size_after, code_section_from_lem}

-- A Code section after `before`: the bytes of its size, those of the number of bodies, the bodies.
abbrev pub with_code : List ℕ → List ℕ → List ℕ → List Entry → List ℕ → List ℕ
with_code before h n entries after = before ++ (0x0a ∷ (h ++ ((n ++ entry_bytes entries) ++ after)))

-- Every body of the section is replaced by its new entry.
rebuild_code_section-new_entries :
    (before h n after : List ℕ) (entries : List Entry) (dead_offsets : List ℕ)
    (block_ranges : BlockRanges) (code_start code_end : ℕ)
    → code_start ≡ length before
    → code_start + 1 + length h + length n + length (entry_bytes entries) ≤ code_end
    → IsLeb h (length (n ++ entry_bytes entries))
    → IsLeb n (length entries)
    → All IsEntry entries
    → rebuild_code_section
        (with_code before h n entries after)
        code_start
        code_end
        dead_offsets
        block_ranges
      ≡ some (
          wrap_code_section
            (length entries)
            (new_entries dead_offsets block_ranges (code_start + 1 + length h + length n) entries))
unfolding rebuild_code_section
rebuild_code_section-new_entries before h n after entries dead_offsets block_ranges code_start
      code_end at fits is_h is_n are =
    let bodies = entry_bytes entries in
    let file = with_code before h n entries after in
    let opened = before ++ (0x0a ∷ h) in
    let shape : file ≡ opened ++ (n ++ (bodies ++ after)) =
      ap (λ (t : List ℕ). before ++ (0x0a ∷ (h ++ t))) (append_assoc n bodies after)
      ∙ sym (append_assoc before (0x0a ∷ h) (n ++ (bodies ++ after))) in
    let shape' : file ≡ (opened ++ n) ++ (bodies ++ after) =
      shape ∙ sym (append_assoc opened n (bodies ++ after)) in
    let count_pos = code_start + 1 + length h in
    let size : read_leb128_u32 file (code_start + 1) ≡ (length (n ++ bodies), count_pos) =
      size_after before h ((n ++ bodies) ++ after) 0x0a code_start (length (n ++ bodies)) at is_h in
    let opens : count_pos ≡ length opened = omega (arith, length-append before (0x0a ∷ h)) in
    let count : read_leb128_u32 file count_pos ≡ (length entries, count_pos + length n) =
      ap (λ (t : List ℕ). read_leb128_u32 t count_pos) shape
      ∙ read_leb128_u32-IsLeb opened n (bodies ++ after) count_pos (length entries) opens is_n in
    let rebuilt : rebuild_from (length entries) file code_end dead_offsets block_ranges
          (count_pos + length n)
        ≡ some (new_entries dead_offsets block_ranges (count_pos + length n) entries) =
      ap
        (λ (t : List ℕ).
          rebuild_from (length entries) t code_end dead_offsets block_ranges (count_pos + length n))
        shape'
      ∙ rebuild_from-new_entries dead_offsets block_ranges entries (opened ++ n) after
          (count_pos + length n) code_end (omega (arith, length-append opened n)) (omega arith)
          are in
    let wrapped = λ (r : ℕ × ℕ).
      let t : Option (List ℕ) =
        elim (rebuild_from r.0 file code_end dead_offsets block_ranges r.1) [
          | none ↦ none
          | some rebuilt ↦ some (wrap_code_section r.0 rebuilt)
        ] in
      t in
    ap (λ (r : ℕ × ℕ). wrapped (read_leb128_u32 file r.1)) size ∙ ap wrapped count ∙ rw rebuilt refl

-- Every section takes a byte at least.
parts_le : (parts : List Part) → length parts ≤ length (part_bytes parts)
parts_le [] = omega arith
parts_le ((id, h, contents) ∷ parts) = omega (
  arith,
  parts_le parts,
  length-append h (contents ++ part_bytes parts),
  length-append contents (part_bytes parts),
)

-- A file: the magic, the version, the sections before the Code section, and that section.
abbrev pub wasm_file : List ℕ → List Part → List ℕ → List ℕ → List Entry → List ℕ → List ℕ
wasm_file version parts h n entries after =
    with_code (0x00 ∷ 0x61 ∷ 0x73 ∷ 0x6d ∷ (version ++ part_bytes parts)) h n entries after

parse_code_section_bounds-wasm_file :
    (version h n after : List ℕ) (parts : List Part) (entries : List Entry)
    → length version ≡ 4
    → All IsPart parts
    → IsLeb h (length (n ++ entry_bytes entries))
    → parse_code_section_bounds (wasm_file version parts h n entries after)
      ≡ some (
        8 + length (part_bytes parts),
        8 + length (part_bytes parts) + 1 + length h + length (n ++ entry_bytes entries),
      )
unfolding parse_code_section_bounds
parse_code_section_bounds-wasm_file version h n after parts entries four are is =
    let opened = 0x00 ∷ 0x61 ∷ 0x73 ∷ 0x6d ∷ version in
    let code = 0x0a ∷ (h ++ ((n ++ entry_bytes entries) ++ after)) in
    let file = wasm_file version parts h n entries after in
    let shape : file ≡ opened ++ (part_bytes parts ++ code) =
      append_assoc opened (part_bytes parts) code in
    let size : length file ≡ 8 + length (part_bytes parts ++ code) =
      omega (arith, ap length shape, length-append opened (part_bytes parts ++ code)) in
    let long : ltb (length file) 8 ≡ false = ground arith in
    let enough : length parts < length file =
      omega (arith, parts_le parts, length-append (part_bytes parts) code) in
    rw long (
      ap (λ (t : List ℕ). code_section_from (length file) t 8) shape
      ∙ code_section_from_lem (length file) parts opened h (n ++ entry_bytes entries) after 8
          (omega arith) enough are is)

-- On a file whose Code section stands after other sections, `reassemble_wasm` keeps every byte
-- before and after that section and replaces each body by its new entry, in order; it
-- reports the numbers of dead functions and blocks and the bytes that the section lost.
pub reassemble_wasm-new_entries :
    (version h n after : List ℕ) (parts : List Part) (entries : List Entry) (dead : DeadMap)
    (dead_blocks : List DeadBlock)
    → length version ≡ 4
    → All IsPart parts
    → IsLeb h (length (n ++ entry_bytes entries))
    → IsLeb n (length entries)
    → All IsEntry entries
    → let start = 8 + length (part_bytes parts) in
      let file = wasm_file version parts h n entries after in
      let new_code = wrap_code_section (length entries) (
        new_entries
          (map (λ (d : String × (ℕ × ℕ)). d.1.0) dead)
          (build_block_ranges file start dead_blocks)
          (start + 1 + length h + length n)
          entries) in
      reassemble_wasm file dead dead_blocks
      ≡ some (
        take start file ++ (new_code ++ after),
        length dead,
        (1 + length h + length (n ++ entry_bytes entries)) - length new_code,
        length dead_blocks,
        block_bytes dead_blocks,
      )
unfolding reassemble_wasm
reassemble_wasm-new_entries version h n after parts entries dead dead_blocks four are is_h is_n
      are_entries =
    let start = 8 + length (part_bytes parts) in
    let end = start + 1 + length h + length (n ++ entry_bytes entries) in
    let opened = 0x00 ∷ 0x61 ∷ 0x73 ∷ 0x6d ∷ (version ++ part_bytes parts) in
    let section = 0x0a ∷ (h ++ (n ++ entry_bytes entries)) in
    let file = wasm_file version parts h n entries after in
    let at : start ≡ length opened = omega (arith, length-append version (part_bytes parts)) in
    let shape : file ≡ (opened ++ section) ++ after =
      ap (λ (t : List ℕ). opened ++ (0x0a ∷ t))
        (sym (append_assoc h (n ++ entry_bytes entries) after))
      ∙ sym (append_assoc opened section after) in
    let total = length-append opened section in
    let total' = length-append h (n ++ entry_bytes entries) in
    let rest : drop end file ≡ after =
      ap (drop end) shape ∙ drop-append end (opened ++ section) after (omega arith) in
    let fits : leb end (length file) ≡ true =
      le→leb end (length file)
        (omega (arith, ap length shape, length-append (opened ++ section) after)) in
    let new =
      rebuild_code_section-new_entries opened h n after entries
        (map (λ (d : String × (ℕ × ℕ)). d.1.0) dead) (build_block_ranges file start dead_blocks)
        start end at (omega (arith, length-append n (entry_bytes entries))) is_h is_n are_entries in
    let saved : end - start ≡ 1 + length h + length (n ++ entry_bytes entries) = omega arith in
    rw
      (
        reassemble_wasm,
        parse_code_section_bounds-wasm_file version h n after parts entries four are is_h,
      )
      (rw new (rw (fits, rest, saved) refl))
