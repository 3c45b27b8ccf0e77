-- ===== src/Patch/Relocs/Count.antt =====
-- src/patch/relocs.rs: plans of disjoint intervals, and how many addresses they kill.
use native.Mathlib.Decide.{dec_le}
use trim.Prelude.{
  ℕ, zero, suc, ◌+◌, ◌-◌, ◌≤◌, ◌<◌, min, Bool, true, false, [], ◌∷◌, leb, ltb, ◌&&◌, ◌||◌,
  if◌then◌else◌, ◌≡◌, refl, arith, ◌∙◌,
}
use trim.Patch.Relocs.{Interval, Intervals, in_dead_range, dead_part}

-- Sorted, disjoint, and inside `[lo, hi]`.
abbrev pub IsPlan : ℕ → ℕ → Intervals → Type 0
IsPlan lo hi [] = lo ≤ hi
IsPlan lo hi ((s, e) ∷ rest) = (lo ≤ s) × (s ≤ e) × IsPlan e hi rest

-- How many numbers below `n` pass a test.
unfoldable pub count_below : (ℕ → Bool) → ℕ → ℕ
count_below p zero = 0
count_below p (suc n) = (if p n then 1 else 0) + count_below p n

-- The dead bytes below an address, with no wrap-around.
unfoldable pub dead_before : ℕ → Intervals → ℕ
dead_before addr [] = 0
dead_before addr (r ∷ rest) = dead_part addr r + dead_before addr rest

abbrev pub inside : Interval → ℕ → Bool
inside r x = leb r.0 x && ltb x r.1

count_below-zero : (p : ℕ → Bool) → count_below p 0 ≡ 0
unfolding count_below
count_below-zero p = refl

count_below-false : (n : ℕ) → count_below (λ _. false) n ≡ 0
unfolding count_below
count_below-false zero = refl
count_below-false (suc n) = omega (arith, count_below-false n)

count_below-inside : (s e n : ℕ) → s ≤ e → count_below (inside (s, e)) n ≡ min e n - s
unfolding count_below
count_below-inside s e zero h = omega arith
count_below-inside s e (suc n) h = ground (arith, count_below-inside s e n)

count_below-or :
    (p q : ℕ → Bool) (n : ℕ)
    → ((x : ℕ) → p x ≡ true → q x ≡ false)
    → count_below (λ x. p x || q x) n ≡ count_below p n + count_below q n
unfolding count_below
count_below-or p q zero h = refl
count_below-or p q (suc n) h = ground (arith, count_below-or p q n, h n)

pub IsPlan-le : (lo hi : ℕ) (r : Intervals) → IsPlan lo hi r → lo ≤ hi
IsPlan-le lo hi [] h = h
IsPlan-le lo hi ((s, e) ∷ rest) h = omega (arith, IsPlan-le e hi rest h.2)

pub le_of_in_dead_range :
    (lo hi x : ℕ) (r : Intervals) → IsPlan lo hi r → in_dead_range x r ≡ true → (lo ≤ x) × (x < hi)
unfolding in_dead_range
le_of_in_dead_range lo hi x [] plan h = cc
le_of_in_dead_range lo hi x ((s, e) ∷ rest) plan h =
    ground (arith, le_of_in_dead_range e hi x rest plan.2, IsPlan-le e hi rest plan.2)

pub count_below-in_dead_range :
    (lo hi n : ℕ) (r : Intervals)
    → IsPlan lo hi r
    → count_below (λ x. in_dead_range x r) n ≡ dead_before n r
unfolding in_dead_range dead_before
count_below-in_dead_range lo hi n [] plan = count_below-false n
count_below-in_dead_range lo hi n ((s, e) ∷ rest) plan =
    let apart : (x : ℕ) → inside (s, e) x ≡ true → in_dead_range x rest ≡ false =
      λ x. ground (arith, le_of_in_dead_range e hi x rest plan.2) in
    count_below-or (inside (s, e)) (λ x. in_dead_range x rest) n apart
    ∙ omega (arith, count_below-inside s e n plan.1, count_below-in_dead_range e hi n rest plan.2)

pub dead_before-le :
    (lo hi addr : ℕ) (r : Intervals) → IsPlan lo hi r → dead_before addr r ≤ hi - lo
unfolding dead_before
dead_before-le lo hi addr [] plan = omega arith
dead_before-le lo hi addr ((s, e) ∷ rest) plan =
    omega (arith, dead_before-le e hi addr rest plan.2, IsPlan-le e hi rest plan.2)

-- Below `b` there are at least as many as below `a`, and at most `b - a` more.
pub count_below_mono :
    (p : ℕ → Bool) (a b : ℕ)
    → a ≤ b
    → (count_below p a ≤ count_below p b) × (count_below p b ≤ count_below p a + (b - a))
unfolding count_below
count_below_mono p a zero h = let e : a ≡ zero = omega arith in rw e (omega arith)
count_below_mono p a (suc b) h = elim (dec_le a b) [
  | yes le ↦ ground (arith, count_below_mono p a b le)
  | no gt ↦ let e : a ≡ suc b = omega arith in rw e (omega arith)
]

pub count_below-le : (p : ℕ → Bool) (n : ℕ) → count_below p n ≤ n
count_below-le p n = omega (arith, (count_below_mono p 0 n (omega arith)).1, count_below-zero p)

pub count_below-suc-false :
    (p : ℕ → Bool) (n : ℕ) → p n ≡ false → count_below p (suc n) ≡ count_below p n
unfolding count_below
count_below-suc-false p n h = rw h (omega arith)
