-- ===== src/Patch/Relocs.antt =====
-- src/patch/relocs.rs: sorted dead intervals, their merge, and the shift of an address.
pub mod Count
pub mod Shift
pub mod Merge
pub mod Plan
pub mod Expand
pub mod Defrag
use trim.Prelude.{
  ℕ, zero, suc, ◌+◌, ◌-◌, ◌*◌, ◌/◌, ◌%◌, min, max, Bool, true, false, List, [], ◌∷◌, ◌++◌, Option,
  none, some, String, leb, ltb, ◌==◌, ◌&&◌, ◌||◌, not, any, find, map, if◌then◌else◌, wrapping_add,
  wrapping_sub, saturating_add, get_elem?, str_eq, length,
}
use trim.Types.{Section}
use trim.Analysis.Cfg.{DeadBlock}

-- `(start, end)` of a dead region: `start` is dead and `end` is not.
abbrev pub Interval : Type 0
Interval = ℕ × ℕ

abbrev pub Intervals : Type 0
Intervals = List Interval

-- The order of pairs that `sort` uses.
abbrev pub interval_le : Interval → Interval → Bool
interval_le (a, b) (c, d) = ltb a c || (a == c && leb b d)

-- `sort`: the standard library's stable sort, as insertion.
unfoldable pub insert_sorted : Interval → Intervals → Intervals
insert_sorted x [] = x ∷ []
insert_sorted x (y ∷ ys) = if interval_le x y then x ∷ y ∷ ys else y ∷ insert_sorted x ys

unfoldable pub sort : Intervals → Intervals
sort [] = []
sort (x ∷ xs) = insert_sorted x (sort xs)

-- The dead map, as the list of its values in the order in which the map is walked.
unfoldable pub dead_intervals : List (String × ℕ × ℕ) → Intervals
dead_intervals dead = sort (map (λ d. (d.1, saturating_add d.1 d.2)) dead)

unfoldable pub block_intervals : List DeadBlock → Intervals
block_intervals blocks = sort (map (λ b. (b.addr, saturating_add b.addr b.size)) blocks)

-- The loop of `merge_intervals`, with the last merged interval in hand.
unfoldable pub merge_from : Interval → Intervals → Intervals
merge_from last [] = last ∷ []
merge_from (lo, hi) ((start, end) ∷ rest) = elim (leb start hi) [
  | true ↦ merge_from (lo, max hi end) rest
  | false ↦ (lo, hi) ∷ merge_from (start, end) rest
]

unfoldable pub merge_sorted : Intervals → Intervals
merge_sorted [] = []
merge_sorted (x ∷ xs) = merge_from x xs

unfoldable pub merge_intervals : Intervals → Intervals
merge_intervals intervals = merge_sorted (sort intervals)

unfoldable pub combine_intervals : Intervals → Intervals → Intervals
combine_intervals a b = merge_intervals (a ++ b)

-- One round of the loop of `shift_at`.
abbrev pub dead_part : ℕ → Interval → ℕ
dead_part addr (start, end) = min end addr - start

unfoldable pub shift_from : ℕ → ℕ → Intervals → ℕ
shift_from total addr [] = total
shift_from total addr ((start, end) ∷ rest) =
    shift_from (if ltb start addr then wrapping_add total (dead_part addr (start, end)) else total)
      addr rest

-- Total dead bytes before an address.
unfoldable pub shift_at : ℕ → Intervals → ℕ
shift_at addr intervals = shift_from 0 addr intervals

unfoldable pub in_dead_range : ℕ → Intervals → Bool
in_dead_range addr intervals = any (λ r. leb r.0 addr && ltb addr r.1) intervals

abbrev pub page_size : ℕ
page_size = 4096

unfoldable pub total_from : ℕ → Intervals → ℕ
total_from total [] = total
total_from total ((s, e) ∷ rest) = total_from (wrapping_add total (e - s)) rest

unfoldable pub total_dead : Intervals → ℕ
total_dead intervals = total_from 0 intervals

unfoldable pub page_shrink : Intervals → ℕ
page_shrink intervals = total_dead intervals / page_size * page_size

unfoldable pub total_shift : ℕ → Intervals → ℕ → ℕ → ℕ
total_shift addr intervals ts te =
    if ltb addr ts
    then 0
    else if ltb addr te
    then shift_at addr intervals
    else page_shrink intervals

-- `data.get(off)` is a padding byte.
abbrev pub padding_at : (ℕ → Bool) → List ℕ → ℕ → Bool
padding_at is_padding bytes off = elim (get_elem? bytes off) [
  | none ↦ false
  | some b ↦ is_padding b
]

module _ (is_padding : ℕ → Bool) (bytes : List ℕ) (text_offset ts te : ℕ) where
  -- The backward loop, on fuel.
  unfoldable pub expand_back : ℕ → ℕ → ℕ
  expand_back zero lo = lo
  expand_back (suc fuel) lo =
      let rest = expand_back fuel (lo - 1) in
      if ltb ts lo && padding_at is_padding bytes (wrapping_add text_offset (lo - 1 - ts))
      then rest
      else lo

  -- Whether the `k` bytes from `hi` on are padding.
  unfoldable pub padding_run : ℕ → ℕ → Bool
  padding_run zero hi = true
  padding_run (suc k) hi =
      padding_run k hi
      && padding_at is_padding bytes
          (wrapping_sub (wrapping_add text_offset (wrapping_add hi k)) ts)

  -- The forward loop, on fuel.
  unfoldable pub expand_forward : ℕ → ℕ → ℕ → ℕ
  expand_forward step zero hi = hi
  expand_forward step (suc fuel) hi =
      let rest = expand_forward step fuel (wrapping_add hi step) in
      if leb (wrapping_add hi step) te && padding_run step hi then rest else hi

  unfoldable pub expand_one : ℕ → Interval → Interval
  expand_one align (start, end) =
      let step = if ltb 1 align then align else 1 in
      (
        if step == 1 then expand_back (start - ts) start else start,
        expand_forward step (suc te) end,
      )

abbrev pub find_section : String → List Section → Option Section
find_section name sections = find (λ s. str_eq s.name name) sections

unfoldable pub defrag_intervals : Intervals → List ℕ → List Section → (ℕ → Bool) → ℕ → Intervals
defrag_intervals intervals bytes sections is_padding align = elim (find_section ".text" sections) [
  | none ↦ intervals
  | some text ↦ merge_intervals (
      map
        (expand_one is_padding bytes text.offset text.vaddr (wrapping_add text.vaddr text.size)
          align)
        intervals)
]
