-- ===== src/Patch/Compact/Fits.antt =====
-- src/patch/compact.rs: what `compaction_fits` accepts.
use trim.Prelude.{ℕ, ◌+◌, ◌≤◌, ◌<◌, ◌^◌, true, List, [], ◌∷◌, ◌≡◌, refl, arith, some, ◌↔◌}
use trim.Types.{Section}
use trim.Patch.Relocs.{Intervals, find_section}
use trim.Patch.Relocs.Count.{IsPlan, IsPlan-le}
use trim.Patch.Compact.{text_file_range, plan_fits, compaction_fits}

plan_fits_iff : (lo hi : ℕ) (r : Intervals) → lo ≤ hi → (plan_fits lo hi r ≡ true) ↔ IsPlan lo hi r
unfolding plan_fits
plan_fits_iff lo hi [] h = (λ _. h, λ _. refl)
plan_fits_iff lo hi ((s, e) ∷ rest) h = (
  λ q. ground (arith, plan_fits_iff e hi rest),
  λ plan. ground (arith, plan_fits_iff e hi rest, IsPlan-le e hi rest plan.2),
)

-- `compaction_fits` holds exactly if .text does not reach past the 64-bit range, its bytes lie
-- inside the file, and the intervals are sorted, disjoint and inside .text, for a file whose length
-- is a 64-bit number.
pub compaction_fits_iff :
    (data_len : ℕ) (sections : List Section) (text : Section) (r : Intervals)
    → find_section ".text" sections ≡ some text
    → data_len < 2 ^ 64
    → (compaction_fits data_len sections r ≡ true) ↔ (
        (text.vaddr + text.size < 2 ^ 64)
        × (text.offset + text.size ≤ data_len)
        × IsPlan text.vaddr (text.vaddr + text.size) r)
unfolding text_file_range compaction_fits
compaction_fits_iff data_len sections text r found small =
    let decided = plan_fits_iff text.vaddr (text.vaddr + text.size) r (omega arith) in
    rw (found, compaction_fits) (λ q. ground (arith, decided), λ q. ground (arith, decided))

pub text_file_range-eq :
    (text : Section) (n : ℕ)
    → text.offset + text.size ≤ n
    → n < 2 ^ 64
    → text_file_range text n ≡ some (text.offset, text.size)
unfolding text_file_range
text_file_range-eq text n h small = ground arith
