-- ===== src/Arch/Moved.antt =====
-- src/arch: where two addresses of .text are after compaction, relative to each other.
use trim.Prelude.{
  ℕ, ◌+◌, ◌-◌, ◌%◌, ◌^◌, ◌≤◌, ◌<◌, [], ◌∷◌, Option, none, some, ◌≡◌, refl, arith, Option-cases,
  subst, inl, inr, All, sym,
}
use trim.Patch.Relocs.{Interval, Intervals, in_dead_range, total_shift}
use trim.Patch.Relocs.Count.{
  IsPlan, count_below, dead_before, count_below_mono, count_below-le, count_below-in_dead_range,
}
use trim.Patch.Relocs.Shift.{shift_at-count_below}
use trim.Arch.{moved, retarget}

-- Both ends of every interval are multiples of 4, or of 2.
abbrev pub Aligned4 : Interval → Type 0
Aligned4 x = (x.0 % 4 ≡ 0) × (x.1 % 4 ≡ 0)

abbrev pub Aligned2 : Interval → Type 0
Aligned2 x = (x.0 % 2 ≡ 0) × (x.1 % 2 ≡ 0)

dead_before-Aligned4 :
    (r : Intervals) (a : ℕ) → All Aligned4 r → a % 4 ≡ 0 → dead_before a r % 4 ≡ 0
unfolding dead_before
dead_before-Aligned4 [] a h k = refl
dead_before-Aligned4 ((s, e) ∷ r) a h k = omega (arith, dead_before-Aligned4 r a h.1 k)

dead_before-Aligned2 :
    (r : Intervals) (a : ℕ) → All Aligned2 r → a % 2 ≡ 0 → dead_before a r % 2 ≡ 0
unfolding dead_before
dead_before-Aligned2 [] a h k = refl
dead_before-Aligned2 ((s, e) ∷ r) a h k = omega (arith, dead_before-Aligned2 r a h.1 k)

dead_before-le_sub : (lo hi a : ℕ) (r : Intervals) → IsPlan lo hi r → dead_before a r ≤ a - lo
unfolding dead_before
dead_before-le_sub lo hi a [] plan = omega arith
dead_before-le_sub lo hi a ((s, e) ∷ r) plan =
    omega (arith, dead_before-le_sub e hi a r plan.2, plan.0, plan.1)

-- Two addresses keep their order, and come no further apart.
abbrev pub Closer : ℕ → ℕ → ℕ → ℕ → Type 0
Closer a b a' b' =
    (a' ≤ a)
    × (b' ≤ b)
    × (a ≤ b → (a' ≤ b') × (b' + a ≤ b + a'))
    × (b ≤ a → (b' ≤ a') × (a' + b ≤ a + b'))

-- .text lies below 2^64, and is smaller than 2^63 bytes.
module _ (r : Intervals) (ts te : ℕ) (plan : IsPlan ts te r) (top : te < 2 ^ 64) where
  total_shift-count_below :
      (a : ℕ) → ts ≤ a → a < te → total_shift a r ts te ≡ count_below (λ x. in_dead_range x r) a
  unfolding total_shift
  total_shift-count_below a low high = ground (arith, shift_at-count_below ts te a r plan top)

  moved-count_below :
      (a : ℕ) → ts ≤ a → a < te → (moved r ts te a + count_below (λ x. in_dead_range x r) a ≡ a)
  unfolding moved
  moved-count_below a low high =
      omega (arith, total_shift-count_below a low high, count_below-le (λ x. in_dead_range x r) a)

  moved-Closer :
      (a b : ℕ) → ts ≤ a → a < te → ts ≤ b → b < te → Closer a b (moved r ts te a) (moved r ts te b)
  moved-Closer a b la ha lb hb =
      let p = λ (x : ℕ). in_dead_range x r in
      let ma = moved-count_below a la ha in
      let mb = moved-count_below b lb hb in
      (
        omega arith,
        omega arith,
        λ le. let m = count_below_mono p a b le in (omega arith, omega arith),
        λ le. let m = count_below_mono p b a le in (omega arith, omega arith),
      )

  retarget-none :
      (a b : ℕ) (encode : ℕ → ℕ → ℕ)
      → ts ≤ a
      → a < te
      → ts ≤ b
      → b < te
      → retarget r ts te a b encode ≡ none
      → moved r ts te a + b ≡ moved r ts te b + a
  unfolding retarget
  retarget-none a b encode la ha lb hb h =
      let same : total_shift a r ts te ≡ total_shift b r ts te = ground arith in
      omega (
        arith,
        same,
        total_shift-count_below a la ha,
        total_shift-count_below b lb hb,
        moved-count_below a la ha,
        moved-count_below b lb hb,
      )

retarget-some :
    (r : Intervals) (ts te a b w : ℕ) (encode : ℕ → ℕ → ℕ)
    → retarget r ts te a b encode ≡ some w
    → w ≡ encode (moved r ts te a) (moved r ts te b)
unfolding retarget
retarget-some r ts te a b w encode h = ground arith

-- The word after the patch, which may be the old one.
abbrev pub patched : Option ℕ → ℕ → ℕ
patched none w = w
patched (some w') w = w'

-- Two addresses below 2^64 that are less than 2^63 apart.
abbrev pub Near : ℕ → ℕ → Type 0
Near a b = (a < 2 ^ 64) × (b < 2 ^ 64) × (a < b + 2 ^ 63) × (b < a + 2 ^ 63)

-- A plan for a .text of less than 2^63 bytes below 2^64, and an address in it.
abbrev pub IsText : Intervals → ℕ → ℕ → Type 0
IsText r ts te = IsPlan ts te r × (te < 2 ^ 64) × (te < ts + 2 ^ 63)

abbrev pub InText : ℕ → ℕ → ℕ → Type 0
InText ts te a = (ts ≤ a) × (a < te)

-- The addresses of an instruction and its target, before and after.
abbrev pub Moves : ℕ → ℕ → ℕ → ℕ → Type 0
Moves a b a' b' = Near a b × Closer a b a' b'

module _ (r : Intervals) (ts te a b : ℕ) (text : IsText r ts te) (source : InText ts te a)
    (target : InText ts te b) where
  pub moved-Moves : Moves a b (moved r ts te a) (moved r ts te b)
  moved-Moves =
      (omega arith, moved-Closer r ts te text.0 text.1 a b source.0 source.1 target.0 target.1)

  -- What holds of no new word if source and target move alike, and of the new word that is made
  -- from both new addresses, holds of the patch.
  pub retarget-elim {ℓ} :
      (P : Option ℕ → Type ℓ) (encode : ℕ → ℕ → ℕ)
      → (moved r ts te a + b ≡ moved r ts te b + a → P none)
      → P (some (encode (moved r ts te a) (moved r ts te b)))
      → P (retarget r ts te a b encode)
  retarget-elim P encode old new = elim (Option-cases (retarget r ts te a b encode)) [
    | inl kept ↦ subst P (sym kept) (
        old
          (retarget-none r ts te text.0 text.1 a b encode source.0 source.1 target.0 target.1 kept))
    | inr (w', made) ↦
        subst P (sym made)
          (subst (λ (x : ℕ). P (some x)) (sym (retarget-some r ts te a b w' encode made)) new)
  ]

  pub patched-retarget {ℓ} :
      (P : ℕ → Type ℓ) (w : ℕ) (encode : ℕ → ℕ → ℕ)
      → (moved r ts te a + b ≡ moved r ts te b + a → P w)
      → P (encode (moved r ts te a) (moved r ts te b))
      → P (patched (retarget r ts te a b encode) w)
  patched-retarget P w encode old new =
      retarget-elim (λ (o : Option ℕ). P (patched o w)) encode old new

module _ (r : Intervals) (ts te a : ℕ) (text : IsText r ts te) (source : InText ts te a) where
  -- No address leaves .text.
  pub moved-InText : InText ts te (moved r ts te a)
  moved-InText = omega (
    arith,
    moved-count_below r ts te text.0 text.1 a source.0 source.1,
    count_below-in_dead_range ts te a r text.0,
    dead_before-le_sub ts te a r text.0,
  )

  pub moved_unshifted : total_shift a r ts te ≡ 0 → moved r ts te a ≡ a
  unfolding moved
  moved_unshifted h = omega arith

  pub moved-Aligned4 : All Aligned4 r → a % 4 ≡ 0 → moved r ts te a % 4 ≡ 0
  moved-Aligned4 aligned h = omega (
    arith,
    moved-count_below r ts te text.0 text.1 a source.0 source.1,
    count_below-in_dead_range ts te a r text.0,
    dead_before-Aligned4 r a aligned h,
  )

  pub moved-Aligned2 : All Aligned2 r → a % 2 ≡ 0 → moved r ts te a % 2 ≡ 0
  moved-Aligned2 aligned h = omega (
    arith,
    moved-count_below r ts te text.0 text.1 a source.0 source.1,
    count_below-in_dead_range ts te a r text.0,
    dead_before-Aligned2 r a aligned h,
  )
