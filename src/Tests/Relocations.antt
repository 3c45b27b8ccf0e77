-- ===== src/Tests/Relocations.antt =====
-- src/format/elf/relr.rs on a file of 48 bytes: two relocations, of the words at 16 and 8.
use trim.Prelude.{ℕ, ◌+◌, ◌≤◌, ◌<◌, List, [], ◌∷◌, ◌++◌, none, ◌≡◌, refl, arith, length, replicate}
use trim.Types.Pointer.{from_le_bytes}
use trim.Format.Elf.Relr.{encode_relr, decode_relr, encode_from, fill_bitmap, set_bit}
use trim.Format.Elf.Relr.Header.{
  Result, Elf, Table, Packed, Split, and_then, rd, span, load_range, load_range_from,
}
use trim.Format.Elf.Relr.Split.{
  split_relocs, split_from, nonempty, packable, sorted_offsets, sort_packed, insert_packed,
  disagree, dedup, dedup_after,
}
use trim.Format.Elf.Relr.Header.{refuse_if}
use trim.Format.Elf.Relr.Drain.{
  Drain, plan_drain, next_content, next_segment, next_section, shift_align, align_from, content_end,
  segments_end, sections_end, straddler, section_hit, segment_hit,
}
use trim.Format.Elf.Relr.Undescribed.{Undescribed, GoesTo, plan_drain-Undescribed}
use trim.Format.Elf.Relr.RoundTrip.{IsAscending, decode_relr-encode_relr}
use trim.Format.Elf.Relr.Sorted.{sorted_offsets-encode_relr}

abbrev offsets : List ℕ
offsets = 0 ∷ 8 ∷ 24 ∷ 512 ∷ 4096 ∷ []

-- 0; 8 and 24; 512 in the second bitmap; 4096 anew.
encode_relr_run : encode_relr offsets ≡ 0 ∷ 11 ∷ 3 ∷ 4096 ∷ []
unfolding encode_relr encode_from fill_bitmap set_bit
encode_relr_run = refl

decode_relr-encode_relr_example :
    (decode_relr (encode_relr offsets) ≡ offsets) × (length (encode_relr offsets) ≤ length offsets)
decode_relr-encode_relr_example = decode_relr-encode_relr offsets (omega arith)

abbrev elf : Elf
elf = record {
  eh = record { etype = 3; entry = 0; phoff = 0; shoff = 0; phnum = 1; shnum = 0; shstrndx = 0 };
  phdrs =
      record { at = 0; ptype = 1; offset = 0; vaddr = 0; filesz = 48; memsz = 48; align = 4096 }
      ∷ [];
  shdrs = [];
}

abbrev table : Table
table = record { off = 0; addr = 0; size = 48; seg = 0; sec = none }

abbrev entry : ℕ → ℕ → List ℕ
entry at addend =
    (at ∷ 0 ∷ 0 ∷ 0 ∷ 0 ∷ 0 ∷ 0 ∷ 0 ∷ [])
    ++ ((8 ∷ 0 ∷ 0 ∷ 0 ∷ 0 ∷ 0 ∷ 0 ∷ 0 ∷ []) ++ (addend ∷ 0 ∷ 0 ∷ 0 ∷ 0 ∷ 0 ∷ 0 ∷ 0 ∷ []))

abbrev file : List ℕ
file = entry 16 5 ++ entry 8 7

abbrev first : Packed
first = record { addr = 8; addend = 7; file_off = 8 }

abbrev second : Packed
second = record { addr = 16; addend = 5; file_off = 16 }

abbrev split : Split
split = record { packed = second ∷ first ∷ []; keep = []; lead = 0 }

split_relocs_run : split_relocs file elf table 8 ≡ Result.ok split
unfolding split_relocs split_from nonempty packable load_range load_range_from and_then rd span
    from_le_bytes
split_relocs_run = refl

sorted_offsets_run : sorted_offsets split.packed ≡ Result.ok (first ∷ second ∷ [], 8 ∷ 16 ∷ [])
unfolding sorted_offsets sort_packed insert_packed disagree dedup dedup_after
sorted_offsets_run = refl

sorted_offsets-encode_relr_example :
    (decode_relr (encode_relr (8 ∷ 16 ∷ [])) ≡ 8 ∷ 16 ∷ []) × IsAscending 0 (8 ∷ 16 ∷ [])
sorted_offsets-encode_relr_example =
    sorted_offsets-encode_relr file elf table 8 split (first ∷ second ∷ []) (8 ∷ 16 ∷ [])
      split_relocs_run sorted_offsets_run

-- A file that is one segment, of a table of 4200 bytes that keeps 100.
abbrev big_elf : Elf
big_elf = record {
  eh = elf.eh;
  phdrs =
      record { at = 0; ptype = 1; offset = 0; vaddr = 0; filesz = 4200; memsz = 4200; align = 4096 }
      ∷ [];
  shdrs = [];
}

abbrev big_table : Table
big_table = record { off = 0; addr = 0; size = 4200; seg = 0; sec = none }

abbrev big_file : List ℕ
big_file = replicate 4200 0

abbrev planned : Drain
planned = record { cut = 104; len = 4096; seg = 0; new_end = 100 }

plan_drain_run : plan_drain big_file big_elf big_table 100 ≡ Result.ok planned
unfolding plan_drain refuse_if and_then next_content next_segment next_section shift_align
    align_from content_end segments_end sections_end straddler section_hit segment_hit
plan_drain_run = refl

plan_drain-Undescribed_example :
    (100 ≤ 104)
    × (0 < 4096)
    × (4200 ≤ 104 + 4096)
    × (104 + 4096 ≤ length big_file)
    × ((x : ℕ) → 100 ≤ x → x < 104 + 4096 → Undescribed big_elf big_table x)
    × GoesTo big_elf (length big_file)
plan_drain-Undescribed_example =
    plan_drain-Undescribed big_file big_elf big_table 100 planned (omega arith) (omega arith)
      (omega arith) plan_drain_run
