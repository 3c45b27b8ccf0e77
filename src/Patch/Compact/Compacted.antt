-- ===== src/Patch/Compact/Compacted.antt =====
-- src/patch/compact.rs: what `compact_text` promises for a plan that `compaction_fits` accepts.
use trim.Prelude.{
  ℕ, ◌+◌, ◌-◌, ◌≤◌, ◌<◌, ◌^◌, true, false, List, if◌then◌else◌, ◌≡◌, refl, arith, length, ap, sym,
  Bool-cases, inl, inr, ◌==◌, some, get_elem?,
}
use trim.Types.{Section}
use trim.Patch.Relocs.{Intervals, in_dead_range, shift_at, total_dead, page_shrink, find_section}
use trim.Patch.Relocs.Count.{IsPlan, count_below_mono}
use trim.Patch.Relocs.Shift.{shift_at-count_below, page_shrink_bounds}
use trim.Patch.Compact.{compaction_fits, compact_text}
use trim.Patch.Compact.Text.{build_live_text-live_where}
use trim.Patch.Compact.Fits.{compaction_fits_iff, text_file_range-eq}
use trim.Patch.Compact.File.{
  kept, out, length-kept, apply_compact-eq, length-out, out_before, out_after, out_live,
}

-- What a compaction of `text` by the plan `r` does to the file.
pub record Compacted (bytes : List ℕ) (text : Section) (r : Intervals) (result : List ℕ × ℕ)
    : Type 0 where
  -- The count returned is the number of dead bytes.
  pub freed : result.1 ≡ total_dead r
  -- The file shrinks by whole pages.
  pub shorter : length result.0 + page_shrink r ≡ length bytes
  -- The bytes before .text stay, and those behind it move down by the pages freed.
  pub before : (i : ℕ) → i < text.offset → get_elem? result.0 i ≡ get_elem? bytes i
  pub after :
      (i : ℕ)
      → text.offset + text.size ≤ i
      → get_elem? result.0 (i - page_shrink r) ≡ get_elem? bytes i
  -- The byte at each live address is found where `shift_at` says.
  pub live :
      (x : ℕ)
      → x < text.size
      → in_dead_range (text.vaddr + x) r ≡ false
      → get_elem? result.0 (text.offset + (x - shift_at (text.vaddr + x) r))
        ≡ get_elem? bytes (text.offset + x)

module _ (bytes : List ℕ) (sections : List Section) (text : Section) (r : Intervals)
    (found : find_section ".text" sections ≡ some text) (small : length bytes < 2 ^ 64)
    (fits : text.offset + text.size ≤ length bytes) (top : text.vaddr + text.size < 2 ^ 64)
    (plan : IsPlan text.vaddr (text.vaddr + text.size) r) where
  abbrev new_text : List ℕ
  new_text = kept bytes r text.offset text.size text.vaddr fits plan top

  abbrev compacted : List ℕ
  compacted = out bytes r text.offset text.size text.vaddr fits plan top

  compact_text-eq : compact_text bytes sections r ≡ (
      if text.size - length new_text == 0
      then (bytes, 0)
      else (compacted, text.size - length new_text))
  unfolding compact_text
  compact_text-eq =
      rw (found, compact_text)
        (rw (text_file_range-eq text (length bytes) fits small, compact_text)
          (rw (build_live_text-live_where bytes r text.offset text.size text.vaddr fits plan) (
            rw (apply_compact-eq bytes r text.offset text.size text.vaddr fits plan top) (
              rw (build_live_text-live_where bytes r text.offset text.size text.vaddr fits plan)
                refl))))

  length-new_text : length new_text + total_dead r ≡ text.size
  length-new_text = length-kept bytes r text.offset text.size text.vaddr fits plan top

  Compacted-out : Compacted bytes text r (compacted, text.size - length new_text)
  Compacted-out = record {
    freed = omega (arith, length-new_text);
    shorter = length-out bytes r text.offset text.size text.vaddr fits plan top;
    before = out_before bytes r text.offset text.size text.vaddr fits plan top;
    after = out_after bytes r text.offset text.size text.vaddr fits plan top;
    live = out_live bytes r text.offset text.size text.vaddr fits plan top;
  }

  -- Nothing is dead: the source leaves the file alone.
  Compacted-unchanged : total_dead r ≡ 0 → Compacted bytes text r (bytes, 0)
  Compacted-unchanged e =
      let te = text.vaddr + text.size in
      let bounds = page_shrink_bounds text.vaddr te r plan top in
      let no_shrink : page_shrink r ≡ 0 = omega (arith, bounds.1) in
      record {
        freed = sym e;
        shorter = omega (arith, no_shrink);
        before = λ i h. refl;
        after = λ i h. ap (get_elem? bytes) (omega (arith, no_shrink));
        live = λ x h q. ap (get_elem? bytes) (
            omega (
              arith,
              shift_at-count_below text.vaddr te (text.vaddr + x) r plan top,
              count_below_mono (λ (y : ℕ). in_dead_range y r) (text.vaddr + x) te (omega arith),
              bounds.0,
            ));
      }

  compact_text-Compacted : Compacted bytes text r (compact_text bytes sections r)
  compact_text-Compacted = elim (Bool-cases (text.size - length new_text == 0)) [
    | inl nothing ↦
        rw (compact_text-eq, nothing) (Compacted-unchanged (ground (arith, length-new_text)))
    | inr some_dead ↦ rw (compact_text-eq, some_dead) Compacted-out
  ]

-- For a plan that `compaction_fits` accepts, `compact_text` is not skipped: it returns the number
-- of dead bytes, the file loses `page_shrink` bytes, the bytes before .text stay where they are,
-- those behind it move down by `page_shrink`, and the byte at each live address of .text ends up at
-- its old place less the `shift_at` of the address, the place that the branch patchers compute.
pub compact_text_lem :
    (bytes : List ℕ) (sections : List Section) (text : Section) (r : Intervals)
    → find_section ".text" sections ≡ some text
    → length bytes < 2 ^ 64
    → compaction_fits (length bytes) sections r ≡ true
    → Compacted bytes text r (compact_text bytes sections r)
compact_text_lem bytes sections text r found small ok =
    let (top, fits, plan) = (compaction_fits_iff (length bytes) sections text r found small).0 ok in
    compact_text-Compacted bytes sections text r found small fits top plan
