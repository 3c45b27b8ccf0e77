-- ===== src/Patch/Relocs/Merge.antt =====
-- src/patch/relocs.rs: sorting and merging keep the dead addresses and yield a plan.
use trim.Prelude.{
  ℕ, ◌≤◌, max, true, false, [], ◌∷◌, leb, ◌||◌, ◌≡◌, refl, arith, Bool-cases, inl, inr, ◌∙◌, All,
}
use trim.Patch.Relocs.{
  Interval, Intervals, interval_le, insert_sorted, sort, merge_from, merge_sorted, merge_intervals,
  in_dead_range,
}
use trim.Patch.Relocs.Count.{inside}

-- The starts do not fall, from `lo` on.
abbrev pub IsSorted : ℕ → Intervals → Type 0
IsSorted lo [] = Unit
IsSorted lo ((s, e) ∷ rest) = (lo ≤ s) × IsSorted s rest

pub IsSorted-weaken : (a b : ℕ) (r : Intervals) → a ≤ b → IsSorted b r → IsSorted a r
IsSorted-weaken a b [] h s = tt
IsSorted-weaken a b (x ∷ r) h s = (omega arith, s.1)

insert_sorted-IsSorted :
    (lo : ℕ) (x : Interval) (r : Intervals)
    → lo ≤ x.0
    → IsSorted lo r
    → IsSorted lo (insert_sorted x r)
unfolding insert_sorted
insert_sorted-IsSorted lo (s, e) [] h k = (h, tt)
insert_sorted-IsSorted lo (s, e) ((c, d) ∷ r) h k = elim (Bool-cases (interval_le (s, e) (c, d))) [
  | inl first ↦ rw first (h, (ground arith, k.1))
  | inr later ↦ rw later (k.0, insert_sorted-IsSorted c (s, e) r (ground arith) k.1)
]

pub sort-IsSorted : (r : Intervals) → IsSorted 0 (sort r)
unfolding sort
sort-IsSorted [] = tt
sort-IsSorted (x ∷ r) = insert_sorted-IsSorted 0 x (sort r) (omega arith) (sort-IsSorted r)

-- Sorting keeps what holds of every interval.
insert_sorted-All :
    (P : Interval → Type 0) (x : Interval) (r : Intervals)
    → P x
    → All P r
    → All P (insert_sorted x r)
unfolding insert_sorted
insert_sorted-All P x [] h k = (h, tt)
insert_sorted-All P x (y ∷ r) h k = elim (Bool-cases (interval_le x y)) [
  | inl first ↦ rw first (h, k)
  | inr later ↦ rw later (k.0, insert_sorted-All P x r h k.1)
]

pub sort-All : (P : Interval → Type 0) (r : Intervals) → All P r → All P (sort r)
unfolding sort
sort-All P [] h = tt
sort-All P (x ∷ r) h = insert_sorted-All P x (sort r) h.0 (sort-All P r h.1)

insert_sorted-covers :
    (a : ℕ) (x : Interval) (r : Intervals)
    → in_dead_range a (insert_sorted x r) ≡ (inside x a || in_dead_range a r)
unfolding insert_sorted in_dead_range
insert_sorted-covers a x [] = refl
insert_sorted-covers a x (y ∷ r) = elim (Bool-cases (interval_le x y)) [
  | inl first ↦ rw first refl
  | inr later ↦ rw later (rw (insert_sorted-covers a x r) (ground arith))
]

pub sort-covers : (a : ℕ) (r : Intervals) → in_dead_range a (sort r) ≡ in_dead_range a r
unfolding sort in_dead_range
sort-covers a [] = refl
sort-covers a (x ∷ r) = insert_sorted-covers a x (sort r) ∙ rw (sort-covers a r)

-- The two branches of the loop, as equations.
pub merge_near :
    (lo hi s e : ℕ) (r : Intervals)
    → leb s hi ≡ true
    → merge_from (lo, hi) ((s, e) ∷ r) ≡ merge_from (lo, max hi e) r
unfolding merge_from
merge_near lo hi s e r h = rw (h, merge_from)

pub merge_far :
    (lo hi s e : ℕ) (r : Intervals)
    → leb s hi ≡ false
    → merge_from (lo, hi) ((s, e) ∷ r) ≡ (lo, hi) ∷ merge_from (s, e) r
unfolding merge_from
merge_far lo hi s e r h = rw (h, merge_from)

pub merge_one : (last : Interval) → merge_from last [] ≡ last ∷ []
unfolding merge_from
merge_one last = refl

merge_from-covers :
    (a lo hi : ℕ) (r : Intervals)
    → IsSorted lo r
    → in_dead_range a (merge_from (lo, hi) r) ≡ (inside (lo, hi) a || in_dead_range a r)
unfolding in_dead_range
merge_from-covers a lo hi [] sorted = rw (merge_one (lo, hi)) refl
merge_from-covers a lo hi ((s, e) ∷ r) sorted = elim (Bool-cases (leb s hi)) [
  | inl near ↦ rw (merge_near lo hi s e r near) (
      rw (merge_from-covers a lo (max hi e) r (IsSorted-weaken lo s r sorted.0 sorted.1))
        (ground arith))
  | inr far ↦ rw (merge_far lo hi s e r far) (rw (merge_from-covers a s e r sorted.1) refl)
]

merge_sorted-covers :
    (a : ℕ) (r : Intervals) → IsSorted 0 r → in_dead_range a (merge_sorted r) ≡ in_dead_range a r
unfolding merge_sorted in_dead_range
merge_sorted-covers a [] sorted = refl
merge_sorted-covers a ((s, e) ∷ r) sorted = merge_from-covers a s e r sorted.1

-- An address is dead after `merge_intervals` exactly if it was dead before, whatever the intervals,
-- ill-formed ones included.
pub merge_intervals-covers :
    (a : ℕ) (r : Intervals) → in_dead_range a (merge_intervals r) ≡ in_dead_range a r
unfolding merge_intervals
merge_intervals-covers a r = merge_sorted-covers a (sort r) (sort-IsSorted r) ∙ sort-covers a r
