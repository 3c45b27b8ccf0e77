-- ===== src/Format/Wasm/Rebuild/Excise.antt =====
-- src/format/wasm/mod.rs: `excise_ranges` on ranges in order.
use trim.Prelude.{
  ℕ, ◌+◌, ◌-◌, ◌≤◌, min, true, false, List, [], ◌∷◌, ◌++◌, ◌≡◌, refl, arith, length, take, drop, ap,
  ap₂, ◌∙◌, sym, ltb, leb, ◌&&◌, if◌then◌else◌, drop-drop, inl, inr, Bool-cases,
}
use trim.Patch.Relocs.{Intervals, in_dead_range}
use trim.Patch.Relocs.Count.{IsPlan, IsPlan-le}
use trim.Patch.Compact.Live.{live_where, live_where_none}
use trim.Patch.Compact.Text.{dead_from, live_where_round}
use trim.Format.Wasm.Rebuild.{excise_from, excise_ranges}

-- The bytes before a range; none where it starts at the position.
kept_before :
    (pos start : ℕ) (body : List ℕ)
    → start ≤ length body
    → (if ltb pos start && leb start (length body) then take (start - pos) (drop pos body) else [])
      ≡ take (start - pos) (drop pos body)
kept_before pos start body fits = elim (Bool-cases (ltb pos start)) [
  | inl later ↦ let e : leb start (length body) ≡ true = ground arith in rw (later, e) refl
  | inr same ↦ let e : start - pos ≡ 0 = ground arith in rw (same, e) refl
]

excise_from-live_where :
    (body : List ℕ) (base pos : ℕ) (r : Intervals)
    → IsPlan (base + pos) (base + length body) r
    → excise_from body base pos r ≡ live_where (dead_from (base + pos) r) (drop pos body)
unfolding excise_from
excise_from-live_where body base pos [] plan =
    sym
      (live_where_none (dead_from (base + pos) []) (drop pos body) (λ x. nothing (base + pos + x)))
  where
    nothing : (x : ℕ) → in_dead_range x [] ≡ false
    nothing x = unfold in_dead_range in refl
excise_from-live_where body base pos ((s, e) ∷ rest) plan =
    let top = IsPlan-le e (base + length body) rest plan.2 in
    let at_e : base + (e - base) ≡ e = omega arith in
    let last : min (e - base) (length body) ≡ e - base = omega arith in
    let later : excise_from body base (e - base) rest
        ≡ live_where (dead_from e rest) (drop (e - base) body) =
      excise_from-live_where body base (e - base) rest (rw at_e plan.2)
      ∙ ap (λ (k : ℕ). live_where (dead_from k rest) (drop (e - base) body)) at_e in
    let same_start : s - base - pos ≡ s - (base + pos) = omega arith in
    let same_drop : drop (e - base) body ≡ drop (e - (base + pos)) (drop pos body) =
      ap (λ (k : ℕ). drop k body) (omega arith) ∙ sym (drop-drop (e - (base + pos)) pos body) in
    ap₂ (λ (t u : List ℕ). t ++ u) (kept_before pos (s - base) body (omega arith))
      (ap (λ (k : ℕ). excise_from body base k rest) last)
    ∙ ap₂ (λ (n : ℕ) (t : List ℕ). take n (drop pos body) ++ t) same_start
        (later ∙ ap (live_where (dead_from e rest)) same_drop)
    ∙ sym (live_where_round (drop pos body) (base + pos) s e (base + length body) rest plan)

-- Where the ranges are a plan inside a body that starts at `base`, `excise_ranges` is the body
-- without the bytes at dead places, in order.
pub excise_ranges-live_where :
    (body : List ℕ) (base : ℕ) (r : Intervals)
    → IsPlan base (base + length body) r
    → excise_ranges body base r ≡ live_where (λ x. in_dead_range (base + x) r) body
unfolding excise_ranges
excise_ranges-live_where body base r plan =
    let e : base + 0 ≡ base = omega arith in
    excise_from-live_where body base 0 r (rw e plan)
    ∙ ap (λ (k : ℕ). live_where (dead_from k r) body) e
