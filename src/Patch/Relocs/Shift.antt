-- ===== src/Patch/Relocs/Shift.antt =====
-- src/patch/relocs.rs: what `shift_at`, `total_dead` and `page_shrink` compute on a plan.
use native.Mathlib.Decide.{dec_lt}
use trim.Prelude.{
  ℕ, suc, ◌+◌, ◌-◌, ◌%◌, ◌^◌, ◌≤◌, ◌<◌, false, [], ◌∷◌, ltb, if◌then◌else◌, ◌≡◌, refl, arith, ◌∙◌,
  sym, wrapping_add,
}
use trim.Patch.Relocs.{
  Intervals, in_dead_range, dead_part, shift_from, shift_at, total_from, total_dead, page_shrink,
  total_shift,
}
use trim.Patch.Relocs.Count.{
  IsPlan, count_below, dead_before, count_below-in_dead_range, count_below_mono, count_below-le,
  count_below-suc-false, IsPlan-le,
}

-- No addition of the loop wraps around.
shift_from-dead_before :
    (lo hi addr total : ℕ) (r : Intervals)
    → IsPlan lo hi r
    → total + (hi - lo) < 2 ^ 64
    → shift_from total addr r ≡ total + dead_before addr r
unfolding shift_from dead_before
shift_from-dead_before lo hi addr total [] plan fits = omega arith
shift_from-dead_before lo hi addr total ((s, e) ∷ rest) plan fits =
    let next = if ltb s addr then wrapping_add total (dead_part addr (s, e)) else total in
    let le = IsPlan-le e hi rest plan.2 in
    let exact : next ≡ total + dead_part addr (s, e) = ground arith in
    omega (arith, shift_from-dead_before e hi addr next rest plan.2 (omega arith))

-- On a plan of disjoint intervals that end at or below `hi`, a 64-bit address, `shift_at` is the
-- number of dead addresses below `addr`.
pub shift_at-count_below :
    (lo hi addr : ℕ) (r : Intervals)
    → IsPlan lo hi r
    → hi < 2 ^ 64
    → shift_at addr r ≡ count_below (λ x. in_dead_range x r) addr
unfolding shift_at
shift_at-count_below lo hi addr r plan fits =
    shift_from-dead_before lo hi addr 0 r plan (omega arith)
    ∙ omega (arith, count_below-in_dead_range lo hi addr r plan)

-- The order of two addresses, the first of them live, after each is moved by its shift.
pub shift_at_order :
    (lo hi a b : ℕ) (r : Intervals)
    → IsPlan lo hi r
    → hi < 2 ^ 64
    → a < b
    → in_dead_range a r ≡ false
    → (shift_at a r ≤ a) × (shift_at b r ≤ b) × (a - shift_at a r < b - shift_at b r)
shift_at_order lo hi a b r plan fits lt live =
    let dead = λ (x : ℕ). in_dead_range x r in
    omega (
      arith,
      shift_at-count_below lo hi a r plan fits,
      shift_at-count_below lo hi b r plan fits,
      count_below-suc-false dead a live,
      count_below_mono dead (suc a) b lt,
      count_below-le dead a,
      count_below-le dead b,
    )

pub total_span : Intervals → ℕ
total_span [] = 0
total_span ((s, e) ∷ rest) = (e - s) + total_span rest

pub total_span-le : (lo hi : ℕ) (r : Intervals) → IsPlan lo hi r → total_span r ≤ hi - lo
unfolding total_span
total_span-le lo hi [] plan = omega arith
total_span-le lo hi ((s, e) ∷ rest) plan =
    omega (arith, total_span-le e hi rest plan.2, IsPlan-le e hi rest plan.2)

total_from-total_span :
    (lo hi total : ℕ) (r : Intervals)
    → IsPlan lo hi r
    → total + (hi - lo) < 2 ^ 64
    → total_from total r ≡ total + total_span r
unfolding total_from total_span
total_from-total_span lo hi total [] plan fits = omega arith
total_from-total_span lo hi total ((s, e) ∷ rest) plan fits =
    let next = wrapping_add total (e - s) in
    let le = IsPlan-le e hi rest plan.2 in
    let exact : next ≡ total + (e - s) = omega arith in
    omega (arith, total_from-total_span e hi next rest plan.2 (omega arith))

pub dead_before_all :
    (lo hi addr : ℕ) (r : Intervals)
    → IsPlan lo hi r
    → hi ≤ addr
    → dead_before addr r ≡ total_span r
unfolding dead_before total_span
dead_before_all lo hi addr [] plan h = refl
dead_before_all lo hi addr ((s, e) ∷ rest) plan h =
    omega (arith, dead_before_all e hi addr rest plan.2 h, IsPlan-le e hi rest plan.2)

pub total_dead-total_span :
    (lo hi : ℕ) (r : Intervals) → IsPlan lo hi r → hi < 2 ^ 64 → total_dead r ≡ total_span r
unfolding total_dead
total_dead-total_span lo hi r plan fits =
    total_from-total_span lo hi 0 r plan (omega arith) ∙ omega arith

-- On a plan whose end is a 64-bit address, `total_dead` is the number of dead addresses, and
-- `page_shrink` is the largest multiple of the page size that is no larger.
pub page_shrink_bounds :
    (lo hi : ℕ) (r : Intervals)
    → IsPlan lo hi r
    → hi < 2 ^ 64
    → (total_dead r ≡ count_below (λ x. in_dead_range x r) hi)
      × (page_shrink r ≤ total_dead r)
      × (total_dead r < page_shrink r + 4096)
      × (page_shrink r % 4096 ≡ 0)
unfolding page_shrink
page_shrink_bounds lo hi r plan fits =
    let exact : total_dead r ≡ count_below (λ x. in_dead_range x r) hi =
      total_dead-total_span lo hi r plan fits
      ∙ sym (dead_before_all lo hi hi r plan (omega arith))
      ∙ sym (count_below-in_dead_range lo hi hi r plan) in
    (exact, omega arith, omega arith, omega arith)

pub dead_before-eq-zero :
    (lo hi addr : ℕ) (r : Intervals) → IsPlan lo hi r → addr ≤ lo → dead_before addr r ≡ 0
unfolding dead_before
dead_before-eq-zero lo hi addr [] plan h = refl
dead_before-eq-zero lo hi addr ((s, e) ∷ rest) plan h =
    omega (arith, dead_before-eq-zero e hi addr rest plan.2 (omega arith))

-- Past the start of .text and before its end `total_shift` is `shift_at`; before the start both are 0.
pub total_shift_before :
    (ts te addr : ℕ) (r : Intervals)
    → IsPlan ts te r
    → te < 2 ^ 64
    → addr < te
    → total_shift addr r ts te ≡ shift_at addr r
unfolding total_shift shift_at
total_shift_before ts te addr r plan fits h =
    ground
      (arith, dead_before-eq-zero ts te addr r plan, shift_from-dead_before ts te addr 0 r plan)

-- Past the end of .text the shift is at most that of the end.
pub total_shift_after :
    (ts te addr : ℕ) (r : Intervals)
    → IsPlan ts te r
    → te < 2 ^ 64
    → te ≤ addr
    → (total_shift addr r ts te ≡ page_shrink r) × (page_shrink r ≤ shift_at te r)
unfolding total_shift shift_at
total_shift_after ts te addr r plan fits h = ground (
  arith,
  IsPlan-le ts te r plan,
  (page_shrink_bounds ts te r plan fits).1,
  total_dead-total_span ts te r plan fits,
  dead_before_all ts te te r plan,
  shift_from-dead_before ts te te 0 r plan,
)

-- On a plan inside .text, whose end is a 64-bit address, moving each address by its `total_shift`
-- is strictly increasing from any address `a` that is not dead to any later address `b`, across the
-- start and the end of .text too, and takes nothing below 0.
pub total_shift_order :
    (ts te a b : ℕ) (r : Intervals)
    → IsPlan ts te r
    → te < 2 ^ 64
    → a < b
    → in_dead_range a r ≡ false
    → (total_shift a r ts te ≤ a) × (a - total_shift a r ts te < b - total_shift b r ts te)
total_shift_order ts te a b r plan fits lt live = elim (dec_lt a te) [
  | yes in_a ↦ elim (dec_lt b te) [
    | yes in_b ↦ omega (
      arith,
      total_shift_before ts te a r plan fits in_a,
      total_shift_before ts te b r plan fits in_b,
      shift_at_order ts te a b r plan fits lt live,
    )
    | no out_b ↦ omega (
      arith,
      total_shift_before ts te a r plan fits in_a,
      total_shift_after ts te b r plan fits (omega arith),
      shift_at_order ts te a te r plan fits in_a live,
    )
  ]
  | no out_a ↦ omega (
    arith,
    total_shift_after ts te a r plan fits (omega arith),
    total_shift_after ts te b r plan fits (omega arith),
    shift_at-count_below ts te te r plan fits,
    count_below-le (λ (x : ℕ). in_dead_range x r) te,
  )
]
