-- ===== src/Format/Wasm/Rebuild/Stubbed.antt =====
-- src/format/wasm/mod.rs: a module whose dead functions are cut is a module again.
use trim.Prelude.{
  ℕ, zero, suc, ◌+◌, ◌-◌, ◌/◌, ◌%◌, ◌^◌, ◌≤◌, ◌<◌, true, false, List, [], ◌∷◌, ◌++◌, map, Option,
  some, ◌≡◌, refl, sym, ◌∙◌, ap, ap₂, arith, ltb, leb, ◌&&◌, if◌then◌else◌, nat_eq, String, length,
  take, All, Bool-cases, inl, inr, length-append, take-append,
}
use mathlib.Core.List.{append_assoc}
use trim.Prelude.Sets.{contains}
use trim.Format.Ranges.{BlockRanges, DeadMap, ranges_of}
use trim.Format.Wasm.Leb.{leb_from, write_from, write_leb128_u32}
use trim.Format.Wasm.Leb.RoundTrip.{IsLeb, write_leb128_u32-IsLeb}
use trim.Format.Wasm.Rebuild.{build_block_ranges, sized, wrap_code_section, reassemble_wasm}
use trim.Format.Wasm.Rebuild.Section.{Entry, IsEntry, entry_bytes, new_entry, new_entries}
use trim.Format.Wasm.Rebuild.Parts.{Part, part_bytes, IsPart}
use trim.Format.Wasm.Rebuild.Whole.{with_code, wasm_file, reassemble_wasm-new_entries}

-- What a dead function becomes: a size of 3, no locals, `unreachable`, and the end.
abbrev pub stub : Entry
stub = (0x03 ∷ [], 0x00 ∷ 0x00 ∷ 0x0b ∷ [])

-- Bodies from `pos` on, where those that start at one of the offsets are stubs, unless they take at
-- most 4 bytes with their size.
abbrev pub stubbed : List ℕ → ℕ → List Entry → List Entry
stubbed offsets pos [] = []
stubbed offsets pos ((h, b) ∷ entries) =
    (if contains offsets (pos + length h) && ltb 4 (length h + length b) then stub else (h, b))
    ∷ stubbed offsets (pos + length h + length b) entries

entry_bytes-cons :
    (e : Entry) (entries : List Entry)
    → entry_bytes (e ∷ entries) ≡ (e.0 ++ e.1) ++ entry_bytes entries
unfolding entry_bytes
entry_bytes-cons (h, b) entries = sym (append_assoc h b (entry_bytes entries))

module _ (offsets : List ℕ) where
  new_entry-stubbed :
      (pos : ℕ) (h b : List ℕ)
      → let e : Entry =
          if contains offsets pos && ltb 4 (length h + length b) then stub else (h, b) in
        new_entry offsets [] pos (h, b) ≡ e.0 ++ e.1
  unfolding new_entry ranges_of
  new_entry-stubbed pos h b = elim (Bool-cases (contains offsets pos)) [
    | inr live ↦ rw live refl
    | inl dead ↦ elim (Bool-cases (ltb 4 (length h + length b))) [
      | inl long ↦
          let long' : leb (length h + length b) 4 ≡ false = ground arith in
          rw (dead, long, long') refl
      | inr short ↦
          let short' : leb (length h + length b) 4 ≡ true = ground arith in
          rw (dead, short, short') refl
    ]
  ]

  nothing : entry_bytes [] ≡ []
  unfolding entry_bytes
  nothing = refl

  new_entries-stubbed :
      (pos : ℕ) (entries : List Entry)
      → new_entries offsets [] pos entries ≡ entry_bytes (stubbed offsets pos entries)
  unfolding new_entries
  new_entries-stubbed pos [] = sym nothing
  new_entries-stubbed pos ((h, b) ∷ entries) =
      let e : Entry =
        if contains offsets (pos + length h) && ltb 4 (length h + length b) then stub else (h, b) in
      let rest = stubbed offsets (pos + length h + length b) entries in
      ap₂ (λ (x y : List ℕ). x ++ y) (new_entry-stubbed (pos + length h) h b)
        (new_entries-stubbed (pos + length h + length b) entries)
      ∙ sym (entry_bytes-cons e rest)

  stubbed-IsEntry :
      (pos : ℕ) (entries : List Entry)
      → All IsEntry entries
      → All IsEntry (stubbed offsets pos entries)
  unfolding leb_from
  stubbed-IsEntry pos [] are = tt
  stubbed-IsEntry pos ((h, b) ∷ entries) are =
      let rest = stubbed-IsEntry (pos + length h + length b) entries are.1 in
      elim (Bool-cases (contains offsets (pos + length h) && ltb 4 (length h + length b))) [
        | inl cut ↦ rw cut ((λ rest. refl), rest)
        | inr kept ↦ rw kept (are.0, rest)
      ]

  length-stubbed :
      (pos : ℕ) (entries : List Entry) → length (stubbed offsets pos entries) ≡ length entries
  length-stubbed pos [] = refl
  length-stubbed pos ((h, b) ∷ entries) =
      ap suc (length-stubbed (pos + length h + length b) entries)

  -- The bytes get no more.
  stubbed_le :
      (pos : ℕ) (entries : List Entry)
      → length (entry_bytes (stubbed offsets pos entries)) ≤ length (entry_bytes entries)
  unfolding entry_bytes
  stubbed_le pos [] = omega arith
  stubbed_le pos ((h, b) ∷ entries) =
      let next = stubbed offsets (pos + length h + length b) entries in
      let rest = stubbed_le (pos + length h + length b) entries in
      let old = length-append h (b ++ entry_bytes entries) in
      let old' = length-append b (entry_bytes entries) in
      elim (Bool-cases (contains offsets (pos + length h) && ltb 4 (length h + length b))) [
        | inl cut ↦ rw cut (ground (arith, rest, old, old'))
        | inr kept ↦ rw kept (
            omega (
              arith,
              rest,
              old,
              old',
              length-append h (b ++ entry_bytes next),
              length-append b (entry_bytes next),
            ))
      ]

length-write_from : (fuel v : ℕ) → length (write_from fuel v) ≤ fuel
unfolding write_from
length-write_from zero v = omega arith
length-write_from (suc fuel) v = ground (arith, length-write_from fuel (v / 128))

-- The section that is written, between other bytes.
wrapped-with_code :
    (before after : List ℕ) (num : ℕ) (new : List Entry)
    → length (write_leb128_u32 num ++ entry_bytes new) < 2 ^ 32
    → let n' = write_leb128_u32 num in
      before ++ (wrap_code_section num (entry_bytes new) ++ after)
      ≡ with_code before (write_leb128_u32 (length (n' ++ entry_bytes new))) n' new after
unfolding wrap_code_section sized
wrapped-with_code before after num new small =
    let contents = write_leb128_u32 num ++ entry_bytes new in
    let e : length contents % 2 ^ 32 ≡ length contents = omega arith in
    rw e (
      ap (λ (t : List ℕ). before ++ (0x0a ∷ t))
        (append_assoc (write_leb128_u32 (length contents)) contents after))

length-wrap_code_section :
    (num : ℕ) (bodies : List ℕ)
    → let contents = write_leb128_u32 num ++ bodies in
      length contents < 2 ^ 32
      → length (wrap_code_section num bodies)
        ≡ 1 + length (write_leb128_u32 (length contents)) + length contents
unfolding wrap_code_section sized
length-wrap_code_section num bodies small =
    let contents = write_leb128_u32 num ++ bodies in
    let e : length contents % 2 ^ 32 ≡ length contents = omega arith in
    rw e (omega (arith, length-append (write_leb128_u32 (length contents)) contents))

no_ranges : (bytes : List ℕ) (start : ℕ) → build_block_ranges bytes start [] ≡ []
unfolding build_block_ranges
no_ranges bytes start = refl

size_of_count : (num : ℕ) → length (write_leb128_u32 num) ≤ 5
unfolding write_leb128_u32
size_of_count num = length-write_from 5 num

-- For a file of the magic, a version, sections, a Code section and what follows, in which the sizes
-- and the number of bodies are those that are there, with less than 2^32 - 5 bytes of bodies and
-- less than 2^32 bodies, and for dead functions without dead blocks: the new file has the same
-- version, the same sections, as many bodies and the same end; the bodies that start where a dead
-- function does are replaced by one of no locals that is only `unreachable`, unless they take at most
-- 4 bytes with their size; and the sizes and the number of bodies are again those that are
-- there. The number of dead functions and the bytes that the section lost are reported.
pub reassemble_wasm-stubbed :
    (version h n after : List ℕ) (parts : List Part) (entries : List Entry) (dead : DeadMap)
    → length version ≡ 4
    → All IsPart parts
    → IsLeb h (length (n ++ entry_bytes entries))
    → IsLeb n (length entries)
    → All IsEntry entries
    → length (entry_bytes entries) + 5 < 2 ^ 32
    → length entries < 2 ^ 32
    → let old = length (part_bytes parts) + 8 in
      let offsets = map (λ (d : String × (ℕ × ℕ)). d.1.0) dead in
      let new = stubbed offsets (old + 1 + length h + length n) entries in
      (h' : List ℕ) × (n' : List ℕ) × IsLeb h' (length (n' ++ entry_bytes new))
      × IsLeb n' (length new)
      × All IsEntry new
      × (reassemble_wasm (wasm_file version parts h n entries after) dead []
          ≡ some (
            wasm_file version parts h' n' new after,
            length dead,
            (1 + length h + length (n ++ entry_bytes entries))
                - (1 + length h' + length (n' ++ entry_bytes new)),
            0,
            0,
          ))
reassemble_wasm-stubbed version h n after parts entries dead four are is_h is_n are_entries small
      few =
    let start = 8 + length (part_bytes parts) in
    let offsets = map (λ (d : String × (ℕ × ℕ)). d.1.0) dead in
    let at : length (part_bytes parts) + 8 ≡ start = omega arith in
    let from = start + 1 + length h + length n in
    let new = stubbed offsets from entries in
    let n' = write_leb128_u32 (length entries) in
    let contents = n' ++ entry_bytes new in
    let h' = write_leb128_u32 (length contents) in
    let file = wasm_file version parts h n entries after in
    let opened = 0x00 ∷ 0x61 ∷ 0x73 ∷ 0x6d ∷ (version ++ part_bytes parts) in
    let fits : length contents < 2 ^ 32 = omega (
      arith,
      length-append n' (entry_bytes new),
      size_of_count (length entries),
      stubbed_le offsets from entries,
    ) in
    let whole =
      reassemble_wasm-new_entries version h n after parts entries dead [] four are is_h is_n
        are_entries in
    let head : take start file ≡ opened =
      take-append start opened (0x0a ∷ (h ++ ((n ++ entry_bytes entries) ++ after)))
        (omega (arith, length-append version (part_bytes parts))) in
    let made : wrap_code_section (length entries)
          (new_entries offsets (build_block_ranges file start []) from entries)
        ≡ wrap_code_section (length entries) (entry_bytes new) =
      ap (wrap_code_section (length entries)) (
        ap (λ (r : BlockRanges). new_entries offsets r from entries) (no_ranges file start)
        ∙ new_entries-stubbed offsets from entries) in
    let out = λ (before code : List ℕ).
      let t : Option (List ℕ × ℕ × ℕ × ℕ × ℕ) = some (
        before ++ (code ++ after),
        length dead,
        (1 + length h + length (n ++ entry_bytes entries)) - length code,
        0,
        0,
      ) in
      t in
    let lost : length (wrap_code_section (length entries) (entry_bytes new))
        ≡ 1 + length h' + length contents =
      length-wrap_code_section (length entries) (entry_bytes new) fits in
    rw at (
      h',
      n',
      write_leb128_u32-IsLeb (length contents) fits,
      rw (length-stubbed offsets from entries) (write_leb128_u32-IsLeb (length entries) few),
      stubbed-IsEntry offsets from entries are_entries,
      whole
          ∙ ap₂ out head made
          ∙ ap₂
              (λ (bytes : List ℕ) (k : ℕ).
                let t : Option (List ℕ × ℕ × ℕ × ℕ × ℕ) = some (
                  bytes,
                  length dead,
                  (1 + length h + length (n ++ entry_bytes entries)) - k,
                  0,
                  0,
                ) in
                t)
              (wrapped-with_code opened after (length entries) new fits) lost,
    )
