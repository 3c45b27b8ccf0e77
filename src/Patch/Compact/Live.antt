-- ===== src/Patch/Compact/Live.antt =====
-- The bytes of a list at the positions that a test does not mark dead, and where each one ends up.
use mathlib.Core.Path.{fun_ext}
use trim.Prelude.{
  ℕ, zero, suc, ◌+◌, ◌-◌, ◌<◌, Bool, true, false, List, [], ◌∷◌, ◌++◌, if◌then◌else◌, ◌≡◌, refl,
  arith, length, take, drop, get_elem?, ap, ◌∙◌, Bool-cases, inl, inr,
}
use trim.Patch.Relocs.Count.{count_below, count_below-le}

pub live_where {ℓ} : {A : Type ℓ} → (ℕ → Bool) → List A → List A
live_where dead [] = []
live_where dead (b ∷ bs) =
    let rest = live_where (λ x. dead (suc x)) bs in if dead 0 then rest else b ∷ rest

count_below-shift :
    (p : ℕ → Bool) (n : ℕ)
    → count_below p (suc n) ≡ (if p 0 then 1 else 0) + count_below (λ x. p (suc x)) n
unfolding count_below
count_below-shift p zero = refl
count_below-shift p (suc n) = omega (arith, count_below-shift p n)

pub count_below-add :
    (p : ℕ → Bool) (n m : ℕ)
    → count_below p (n + m) ≡ count_below p n + count_below (λ x. p (n + x)) m
unfolding count_below
count_below-add p n zero = let e : n + zero ≡ n = omega arith in rw e (omega arith)
count_below-add p n (suc m) =
    let e : n + suc m ≡ suc (n + m) = omega arith in rw e (omega (arith, count_below-add p n m))

-- A live element moves down by the number of dead positions before it.
pub get_elem?-live_where :
    (p : ℕ → Bool) (bs : List ℕ) (i : ℕ)
    → p i ≡ false
    → i < length bs
    → get_elem? (live_where p bs) (i - count_below p i) ≡ get_elem? bs i
unfolding live_where
get_elem?-live_where p [] i live h = elim h [ ]
get_elem?-live_where p (b ∷ bs) zero live h =
    let e : 0 - count_below p 0 ≡ 0 = omega arith in rw (e, live) refl
get_elem?-live_where p (b ∷ bs) (suc i) live h =
    let later = λ (x : ℕ). p (suc x) in
    let count = count_below-shift p i in
    elim (Bool-cases (p 0)) [
      | inl dead ↦
          let e : suc i - count_below p (suc i) ≡ i - count_below later i =
            omega (arith, rw dead at count) in
          rw (e, dead) (get_elem?-live_where later bs i live (omega arith))
      | inr kept ↦
          let e : suc i - count_below p (suc i) ≡ suc (i - count_below later i) =
            omega (arith, rw kept at count, count_below-le later i) in
          rw (e, kept) (get_elem?-live_where later bs i live (omega arith))
    ]

pub length-live_where :
    (p : ℕ → Bool) (bs : List ℕ) → length (live_where p bs) + count_below p (length bs) ≡ length bs
unfolding live_where
length-live_where p [] = omega (arith, count_below-le p 0)
length-live_where p (b ∷ bs) =
    ground (arith, length-live_where (λ x. p (suc x)) bs, count_below-shift p (length bs))

pub live_where_none : (p : ℕ → Bool) (bs : List ℕ) → ((x : ℕ) → p x ≡ false) → live_where p bs ≡ bs
unfolding live_where
live_where_none p [] h = refl
live_where_none p (b ∷ bs) h =
    rw (h 0) (ap (λ (t : List ℕ). b ∷ t) (live_where_none (λ x. p (suc x)) bs (λ x. h (suc x))))

-- A run of live positions is copied.
pub live_where_copy :
    (n : ℕ) (p : ℕ → Bool) (bs : List ℕ)
    → ((x : ℕ) → x < n → p x ≡ false)
    → live_where p bs ≡ take n bs ++ live_where (λ x. p (n + x)) (drop n bs)
unfolding live_where
live_where_copy zero p bs h =
    ap (λ (q : ℕ → Bool). live_where q bs) (fun_ext (λ x. ap p (omega arith)))
live_where_copy (suc n) p [] h = refl
live_where_copy (suc n) p (b ∷ bs) h = rw (h 0 (omega arith)) (
    ap (λ (t : List ℕ). b ∷ t)
      (live_where_copy n (λ x. p (suc x)) bs (λ x lt. h (suc x) (omega arith))
        ∙ ap (λ (q : ℕ → Bool). take n bs ++ live_where q (drop n bs))
            (fun_ext (λ x. ap p (omega arith)))))

-- A run of dead positions is dropped.
pub live_where-drop :
    (n : ℕ) (p : ℕ → Bool) (bs : List ℕ)
    → ((x : ℕ) → x < n → p x ≡ true)
    → live_where p bs ≡ live_where (λ x. p (n + x)) (drop n bs)
unfolding live_where
live_where-drop zero p bs h =
    ap (λ (q : ℕ → Bool). live_where q bs) (fun_ext (λ x. ap p (omega arith)))
live_where-drop (suc n) p [] h = refl
live_where-drop (suc n) p (b ∷ bs) h = rw (h 0 (omega arith)) (
    live_where-drop n (λ x. p (suc x)) bs (λ x lt. h (suc x) (omega arith))
    ∙ ap (λ (q : ℕ → Bool). live_where q (drop n bs)) (fun_ext (λ x. ap p (omega arith))))
