-- ===== src/Patch/Relocs/Plan.antt =====
-- src/patch/relocs.rs: the merged intervals are a plan, and cover the dead functions and blocks.
use trim.Prelude.{
  ℕ, ◌+◌, ◌≤◌, ◌<◌, min, max, Bool, List, [], ◌∷◌, ◌++◌, leb, ltb, ◌&&◌, ◌||◌, ◌≡◌, refl, arith,
  Bool-cases, inl, inr, ap, ap₂, ◌∙◌, map, any, All, String, saturating_add, u64_max,
}
use trim.Analysis.Cfg.{DeadBlock}
use trim.Patch.Relocs.{
  Interval, Intervals, sort, merge_from, merge_sorted, merge_intervals, combine_intervals,
  in_dead_range, dead_intervals, block_intervals,
}
use trim.Patch.Relocs.Count.{IsPlan, inside}
use trim.Patch.Relocs.Merge.{
  IsSorted, IsSorted-weaken, sort-IsSorted, sort-All, sort-covers, merge_near, merge_far, merge_one,
  merge_intervals-covers,
}

-- Well-formed intervals between `lo` and `hi`.
abbrev pub Within : ℕ → ℕ → Interval → Type 0
Within lo hi r = (lo ≤ r.0) × (r.0 ≤ r.1) × (r.1 ≤ hi)

-- Each starts after the end of the one before it, so that no two of them touch.
abbrev pub StartsAfter : ℕ → Intervals → Type 0
StartsAfter b [] = Unit
StartsAfter b ((s, e) ∷ rest) = (b < s) × StartsAfter e rest

abbrev pub HasGaps : Intervals → Type 0
HasGaps [] = Unit
HasGaps ((s, e) ∷ rest) = StartsAfter e rest

abbrev EndsBy : ℕ → Interval → Type 0
EndsBy top r = (r.0 ≤ r.1) × (r.1 ≤ top)

merge_from-IsPlan :
    (b lo hi top : ℕ) (r : Intervals)
    → b ≤ lo
    → lo ≤ hi
    → hi ≤ top
    → IsSorted lo r
    → All (EndsBy top) r
    → IsPlan b top (merge_from (lo, hi) r)
merge_from-IsPlan b lo hi top [] hb hw ht sorted ends = rw (merge_one (lo, hi)) (hb, hw, ht)
merge_from-IsPlan b lo hi top ((s, e) ∷ r) hb hw ht sorted ends = elim (Bool-cases (leb s hi)) [
  | inl near ↦ rw (merge_near lo hi s e r near) (
      merge_from-IsPlan b lo (max hi e) top r hb (omega arith) (omega arith)
        (IsSorted-weaken lo s r sorted.0 sorted.1) ends.1)
  | inr far ↦ rw (merge_far lo hi s e r far) (
    hb,
    hw,
    merge_from-IsPlan hi s e top r (ground arith) (omega arith) (omega arith) sorted.1 ends.1,
  )
]

merge_from-StartsAfter :
    (b lo hi : ℕ) (r : Intervals) → b < lo → IsSorted lo r → StartsAfter b (merge_from (lo, hi) r)
merge_from-StartsAfter b lo hi [] h sorted = rw (merge_one (lo, hi)) (h, tt)
merge_from-StartsAfter b lo hi ((s, e) ∷ r) h sorted = elim (Bool-cases (leb s hi)) [
  | inl near ↦
      rw (merge_near lo hi s e r near)
        (merge_from-StartsAfter b lo (max hi e) r h (IsSorted-weaken lo s r sorted.0 sorted.1))
  | inr far ↦
      rw (merge_far lo hi s e r far) (h, merge_from-StartsAfter hi s e r (ground arith) sorted.1)
]

merge_from-HasGaps : (lo hi : ℕ) (r : Intervals) → IsSorted lo r → HasGaps (merge_from (lo, hi) r)
merge_from-HasGaps lo hi [] sorted = rw (merge_one (lo, hi)) tt
merge_from-HasGaps lo hi ((s, e) ∷ r) sorted = elim (Bool-cases (leb s hi)) [
  | inl near ↦
      rw (merge_near lo hi s e r near)
        (merge_from-HasGaps lo (max hi e) r (IsSorted-weaken lo s r sorted.0 sorted.1))
  | inr far ↦
      rw (merge_far lo hi s e r far) (merge_from-StartsAfter hi s e r (ground arith) sorted.1)
]

merge_sorted-IsPlan :
    (lo top : ℕ) (r : Intervals)
    → lo ≤ top
    → IsSorted 0 r
    → All (Within lo top) r
    → IsPlan lo top (merge_sorted r) × HasGaps (merge_sorted r)
unfolding merge_sorted
merge_sorted-IsPlan lo top [] h sorted ends = (h, tt)
merge_sorted-IsPlan lo top ((s, e) ∷ r) h sorted ends = (
  merge_from-IsPlan lo s e top r (omega arith) (omega arith) (omega arith) sorted.1
      (All-EndsBy r ends.1),
  merge_from-HasGaps s e r sorted.1,
)
  where
    All-EndsBy : (t : Intervals) → All (Within lo top) t → All (EndsBy top) t
    All-EndsBy [] k = tt
    All-EndsBy (x ∷ t) k = ((k.0.1, k.0.2), All-EndsBy t k.1)

-- From intervals that lie between `lo` and `hi`, none ending before it starts, `merge_intervals`
-- makes a plan, sorted and disjoint between `lo` and `hi`, in which no two intervals touch.
pub merge_intervals-IsPlan :
    (lo hi : ℕ) (r : Intervals)
    → lo ≤ hi
    → All (Within lo hi) r
    → IsPlan lo hi (merge_intervals r) × HasGaps (merge_intervals r)
unfolding merge_intervals
merge_intervals-IsPlan lo hi r h ends =
    merge_sorted-IsPlan lo hi (sort r) h (sort-IsSorted r) (sort-All (Within lo hi) r ends)

in_dead_range-append :
    (a : ℕ) (r t : Intervals) → in_dead_range a (r ++ t) ≡ (in_dead_range a r || in_dead_range a t)
unfolding in_dead_range
in_dead_range-append a [] t = refl
in_dead_range-append a (x ∷ r) t = rw (in_dead_range-append a r t) (ground arith)

-- What a dead function or a dead block covers: its address and size, the end at most 2^64 - 1.
abbrev pub region_covers : ℕ → ℕ → ℕ → Bool
region_covers a addr size = leb addr a && ltb a (min (addr + size) u64_max)

in_dead_range-map {ℓ} :
    {A : Type ℓ} (a : ℕ) (f : A → Interval) (xs : List A)
    → in_dead_range a (map f xs) ≡ any (λ x. inside (f x) a) xs
unfolding in_dead_range
in_dead_range-map a f [] = refl
in_dead_range-map a f (x ∷ xs) = ap (λ (b : Bool). inside (f x) a || b) (in_dead_range-map a f xs)

-- The intervals that combine_intervals makes of the intervals of dead functions and of dead blocks
-- are their union: an address is in one of them exactly if one of these regions covers it, where a
-- region ends at address 2^64 - 1 at the latest.
pub combine_intervals-covers :
    (a : ℕ) (dead : List (String × ℕ × ℕ)) (blocks : List DeadBlock)
    → in_dead_range a (combine_intervals (dead_intervals dead) (block_intervals blocks))
      ≡ (any (λ d. region_covers a d.1 d.2) dead || any (λ b. region_covers a b.addr b.size) blocks)
unfolding combine_intervals dead_intervals block_intervals
combine_intervals-covers a dead blocks =
    let f = λ (d : String × ℕ × ℕ). (let r : Interval = (d.1, saturating_add d.1 d.2) in r) in
    let g = λ (b : DeadBlock). (let r : Interval = (b.addr, saturating_add b.addr b.size) in r) in
    merge_intervals-covers a (sort (map f dead) ++ sort (map g blocks))
    ∙ in_dead_range-append a (sort (map f dead)) (sort (map g blocks))
    ∙ ap₂ (λ (x y : Bool). x || y) (sort-covers a (map f dead) ∙ in_dead_range-map a f dead)
        (sort-covers a (map g blocks) ∙ in_dead_range-map a g blocks)
