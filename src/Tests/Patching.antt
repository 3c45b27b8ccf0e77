-- ===== src/Tests/Patching.antt =====
-- src/patch and src/types.rs on a file of ten bytes: .text is the six bytes 10 to 15 at offset 2.
use trim.Prelude.{
  ℕ, ◌+◌, ◌-◌, ◌%◌, ◌≤◌, ◌<◌, ◌^◌, Bool, true, false, List, [], ◌∷◌, some, ◌≡◌, refl, arith, ◌↔◌,
  ◌==◌, length, get_elem?, String, ◌⊎◌, any, ◌||◌,
}
use trim.Types.{Section, Endian}
use trim.Types.Pointer.{write_ptr, read_ptr, ptr_size}
use trim.Types.Pointer.RoundTrip.{read_ptr-write_ptr}
use trim.Patch.Relocs.{
  Intervals, in_dead_range, shift_at, total_shift, total_dead, page_shrink, merge_intervals,
  defrag_intervals, padding_at, sort, insert_sorted, merge_sorted, merge_from, total_from,
  expand_one, expand_back, expand_forward, padding_run, combine_intervals, dead_intervals,
  block_intervals,
}
use trim.Patch.Relocs.Count.{IsPlan, count_below}
use trim.Patch.Relocs.Shift.{shift_at-count_below, total_shift_order}
use trim.Patch.Relocs.Plan.{
  merge_intervals-IsPlan, HasGaps, combine_intervals-covers, region_covers,
}
use trim.Analysis.Cfg.{DeadBlock}
use trim.Patch.Relocs.Defrag.{defrag_intervals_lem}
use trim.Patch.Compact.{
  compaction_fits, compact_text, plan_fits, text_file_range, build_live_text, live_from,
  apply_compact,
}
use trim.Patch.Compact.Fits.{compaction_fits_iff}
use trim.Patch.Compact.Compacted.{Compacted, compact_text_lem}

abbrev file : List ℕ
file = 1 ∷ 2 ∷ 10 ∷ 11 ∷ 12 ∷ 0 ∷ 14 ∷ 15 ∷ 8 ∷ 9 ∷ []

abbrev text : Section
text = record { name = ".text"; size = 6; vaddr = 100; offset = 2; align = 1 }

abbrev sections : List Section
sections = record { name = ".data"; size = 2; vaddr = 200; offset = 8; align = 1 } ∷ text ∷ []

abbrev dead : Intervals
dead = (101, 103) ∷ []

-- 11 and 12 are cut out, and zeros fill the end of .text.
compact_text_run :
    compact_text file sections dead ≡ (1 ∷ 2 ∷ 10 ∷ 0 ∷ 14 ∷ 15 ∷ 0 ∷ 0 ∷ 8 ∷ 9 ∷ [], 2)
unfolding compact_text text_file_range build_live_text live_from apply_compact page_shrink
    total_dead total_from
compact_text_run = refl

file_fits : compaction_fits (length file) sections dead ≡ true
unfolding compaction_fits plan_fits
file_fits = refl

compact_text_lem_example : Compacted file text dead (compact_text file sections dead)
compact_text_lem_example = compact_text_lem file sections text dead refl (omega arith) file_fits

compaction_fits_iff_example :
    (compaction_fits 10 sections dead ≡ true)
    ↔ ((100 + 6 < 2 ^ 64) × (2 + 6 ≤ 10) × IsPlan 100 (100 + 6) dead)
compaction_fits_iff_example = compaction_fits_iff 10 sections text dead refl (omega arith)

shift_at-count_below_example : shift_at 104 dead ≡ count_below (λ x. in_dead_range x dead) 104
shift_at-count_below_example = shift_at-count_below 100 106 104 dead (omega arith) (omega arith)

live_at_100 : in_dead_range 100 dead ≡ false
unfolding in_dead_range
live_at_100 = refl

total_shift_order_example :
    (total_shift 100 dead 100 106 ≤ 100)
    × (100 - total_shift 100 dead 100 106 < 107 - total_shift 107 dead 100 106)
total_shift_order_example =
    total_shift_order 100 106 100 107 dead (omega arith) (omega arith) (omega arith) live_at_100

abbrev unmerged : Intervals
unmerged = (104, 105) ∷ (100, 102) ∷ (102, 103) ∷ []

merge_run : merge_intervals unmerged ≡ (100, 103) ∷ (104, 105) ∷ []
unfolding merge_intervals sort insert_sorted merge_sorted merge_from
merge_run = refl

merge_intervals-IsPlan_example :
    IsPlan 100 106 (merge_intervals unmerged) × HasGaps (merge_intervals unmerged)
merge_intervals-IsPlan_example = merge_intervals-IsPlan 100 106 unmerged (omega arith) (omega arith)

abbrev zero_pads : ℕ → Bool
zero_pads b = b == 0

-- The zero byte behind the interval is absorbed.
defrag_run : defrag_intervals dead file sections zero_pads 1 ≡ (101, 104) ∷ []
unfolding defrag_intervals expand_one expand_back expand_forward padding_run merge_intervals sort
    insert_sorted merge_sorted merge_from
defrag_run = refl

defrag_intervals_lem_example :
    IsPlan 100 (100 + 6) (defrag_intervals dead file sections zero_pads 1)
    × HasGaps (defrag_intervals dead file sections zero_pads 1)
    × ((x : ℕ)
        → in_dead_range x dead ≡ true
        → in_dead_range x (defrag_intervals dead file sections zero_pads 1) ≡ true)
    × ((x : ℕ)
        → in_dead_range x (defrag_intervals dead file sections zero_pads 1) ≡ true
        → (in_dead_range x dead ≡ true) ⊎ (padding_at zero_pads file (2 + (x - 100)) ≡ true))
defrag_intervals_lem_example =
    defrag_intervals_lem zero_pads file sections text 1 dead refl (omega arith) (omega arith)
      (omega arith)

read_ptr-write_ptr_example :
    (written : List ℕ) × (write_ptr file 3 0x1_0203_0405 false Endian.big ≡ some written)
    × (length written ≡ length file)
    × (read_ptr written 3 false Endian.big ≡ some (0x1_0203_0405 % 2 ^ 32))
    × ((i : ℕ) → i < 3 → get_elem? written i ≡ get_elem? file i)
    × ((i : ℕ) → 3 + ptr_size false ≤ i → get_elem? written i ≡ get_elem? file i)
read_ptr-write_ptr_example = read_ptr-write_ptr file 3 0x1_0203_0405 false Endian.big (omega arith)

combine_intervals-covers_example :
    in_dead_range 104 (
      combine_intervals
        (dead_intervals (("f", 100, 2) ∷ []))
        (block_intervals (record { func_name = "g"; addr = 104; size = 2 } ∷ [])))
    ≡ (any (λ (d : String × ℕ × ℕ). region_covers 104 d.1 d.2) (("f", 100, 2) ∷ [])
        || any
            (λ (b : DeadBlock). region_covers 104 b.addr b.size)
            (record { func_name = "g"; addr = 104; size = 2 } ∷ []))
combine_intervals-covers_example =
    combine_intervals-covers 104 (("f", 100, 2) ∷ [])
      (record { func_name = "g"; addr = 104; size = 2 } ∷ [])
