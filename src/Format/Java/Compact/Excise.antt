-- ===== src/Format/Java/Compact/Excise.antt =====
-- src/format/java/bytecode.rs: `excise_ranges` on ranges in order.
use mathlib.Core.Path.{fun_ext}
use trim.Prelude.{
  ℕ, ◌+◌, ◌-◌, min, Bool, true, List, [], ◌∷◌, ◌≡◌, refl, arith, some, length, ap, ◌∙◌, ltb, leb,
  inl, inr, Bool-cases,
}
use trim.Patch.Relocs.{Intervals, in_dead_range}
use trim.Patch.Relocs.Count.{IsPlan, IsPlan-le}
use trim.Patch.Compact.Live.{live_where}
use trim.Format.Wasm.Rebuild as Wasm
use trim.Format.Wasm.Rebuild.Excise.{excise_ranges-live_where}
use trim.Format.Java.Compact.{excise_from, excise_ranges}

-- On ranges in order, this loop is the one of the Wasm module with a body at 0.
excise_from-wasm :
    (code : List ℕ) (pos : ℕ) (r : Intervals)
    → IsPlan pos (length code) r
    → excise_from code pos r ≡ some (Wasm.excise_from code 0 pos r)
unfolding excise_from Wasm.excise_from
excise_from-wasm code pos [] plan = refl
excise_from-wasm code pos ((s, e) ∷ r) plan =
    let top = IsPlan-le e (length code) r plan.2 in
    let start : s - 0 ≡ s = omega arith in
    let last : min (e - 0) (length code) ≡ e = omega arith in
    let fits : leb s (length code) ≡ true = ground arith in
    let rest = excise_from-wasm code e r plan.2 in
    elim (Bool-cases (ltb pos s)) [
      | inl later ↦
          let order : leb pos s ≡ true = ground arith in
          rw (rest, start, last, later, order, fits) refl
      | inr same ↦ rw (rest, start, last, same) refl
    ]

-- Where the ranges are a plan inside the code, `excise_ranges` does not fail, and what is left is
-- the code without the dead bytes, in order.
pub excise_ranges-live :
    (code : List ℕ) (r : Intervals)
    → IsPlan 0 (length code) r
    → excise_ranges code r ≡ some (live_where (λ x. in_dead_range x r) code)
unfolding excise_ranges Wasm.excise_ranges
excise_ranges-live code r plan =
    let e : 0 + length code ≡ length code = omega arith in
    let same = fun_ext (λ (x : ℕ). ap (λ (y : ℕ). in_dead_range y r) (zero_add x)) in
    excise_from-wasm code 0 r plan
    ∙ ap some (
        excise_ranges-live_where code 0 r (rw e plan)
        ∙ ap (λ (q : ℕ → Bool). live_where q code) same)
  where
    zero_add : (x : ℕ) → 0 + x ≡ x
    zero_add x = omega arith
