-- ===== src/Patch/Relocs/Expand.antt =====
-- src/patch/relocs.rs: what `expand_one` absorbs.
use native.Mathlib.Decide.{dec_lt}
use trim.Prelude.{
  ℕ, zero, suc, ◌+◌, ◌-◌, ◌*◌, ◌^◌, ◌≤◌, ◌<◌, Bool, true, false, List, leb, ltb, ◌&&◌,
  if◌then◌else◌, ◌≡◌, refl, arith, Bool-cases, inl, inr, ◌∙◌, sym, ◌⊎◌, wrapping_add, wrapping_sub,
}
use trim.Patch.Relocs.{padding_at, expand_back, padding_run, expand_forward}

module _ (is_padding : ℕ → Bool) (bytes : List ℕ) (text_offset ts te : ℕ) where
  -- Whether the byte that the file holds for an address of .text is padding.
  abbrev pub pad : ℕ → Bool
  pad x = padding_at is_padding bytes (text_offset + (x - ts))

  abbrev back : ℕ → ℕ → ℕ
  back = expand_back is_padding bytes text_offset ts te

  abbrev run : ℕ → ℕ → Bool
  run = padding_run is_padding bytes text_offset ts te

  abbrev forward : ℕ → ℕ → ℕ → ℕ
  forward = expand_forward is_padding bytes text_offset ts te

  back-zero : (lo : ℕ) → back zero lo ≡ lo
  unfolding expand_back
  back-zero lo = refl

  -- The loops with their 64-bit sums exact.
  back_round :
      (fuel lo : ℕ)
      → text_offset + te < 2 ^ 64
      → lo ≤ te
      → back (suc fuel) lo ≡ (if ltb ts lo && pad (lo - 1) then back fuel (lo - 1) else lo)
  unfolding expand_back
  back_round fuel lo fits h =
      let e : wrapping_add text_offset (lo - 1 - ts) ≡ text_offset + (lo - 1 - ts) = omega arith in
      rw e refl

  run_round :
      (k hi : ℕ)
      → text_offset + te < 2 ^ 64
      → ts ≤ hi
      → hi + k < te
      → run (suc k) hi ≡ (run k hi && pad (hi + k))
  unfolding padding_run
  run_round k hi fits h lt =
      let e : wrapping_sub (wrapping_add text_offset (wrapping_add hi k)) ts
          ≡ text_offset + (hi + k - ts) =
        omega arith in
      rw e refl

  forward_round :
      (step fuel hi : ℕ)
      → hi + step < 2 ^ 64
      → forward step (suc fuel) hi
        ≡ (if leb (hi + step) te && run step hi then forward step fuel (hi + step) else hi)
  unfolding expand_forward
  forward_round step fuel hi fits =
      let e : wrapping_add hi step ≡ hi + step = omega arith in rw e refl

  -- What the backward loop absorbs is padding, and it stops where it must.
  pub back_lem :
      (fuel lo : ℕ)
      → text_offset + te < 2 ^ 64
      → ts ≤ lo
      → lo ≤ te
      → lo - ts ≤ fuel
      → (back fuel lo ≤ lo)
        × (ts ≤ back fuel lo)
        × ((x : ℕ) → back fuel lo ≤ x → x < lo → pad x ≡ true)
        × ((back fuel lo ≡ ts) ⊎ (pad (back fuel lo - 1) ≡ false))
  back_lem zero lo fits h k f =
      rw (back-zero lo) (omega arith, h, λ x a b. absurd (omega arith), inl (omega arith))
  back_lem (suc fuel) lo fits h k f = elim (Bool-cases (ltb ts lo && pad (lo - 1))) [
    | inl more ↦
        let (le, ge, all, ends) =
          back_lem fuel (lo - 1) fits (ground arith) (omega arith) (omega arith) in
        rw (back_round fuel lo fits k, more)
          (omega arith, ge, λ x a b. ground (arith, all x a), ends)
    | inr stop ↦
        rw (back_round fuel lo fits k, stop)
          (omega arith, h, λ x a b. absurd (omega arith), ground arith)
  ]

  run_lem :
      (k hi : ℕ)
      → text_offset + te < 2 ^ 64
      → ts ≤ hi
      → hi + k ≤ te
      → run k hi ≡ true
      → (x : ℕ) → hi ≤ x
      → x < hi + k
      → pad x ≡ true
  run_lem zero hi fits h le r x a b = absurd (omega arith)
  run_lem (suc k) hi fits h le r x a b =
      let both : (run k hi && pad (hi + k)) ≡ true =
        sym (run_round k hi fits h (omega arith)) ∙ r in
      elim (dec_lt x (hi + k)) [
        | yes lt ↦ run_lem k hi fits h (omega arith) (ground arith) x a lt
        | no ge ↦ let e : x ≡ hi + k = omega arith in rw e (ground arith)
      ]

  pub forward_lem :
      (step fuel hi : ℕ)
      → 0 < step
      → text_offset + te < 2 ^ 64
      → te + step < 2 ^ 64
      → ts ≤ hi
      → hi ≤ te
      → te - hi < fuel
      → (hi ≤ forward step fuel hi)
        × (forward step fuel hi ≤ te)
        × ((n : ℕ) × (forward step fuel hi ≡ hi + n * step))
        × ((x : ℕ) → hi ≤ x → x < forward step fuel hi → pad x ≡ true)
        × ((te < forward step fuel hi + step) ⊎ (run step (forward step fuel hi) ≡ false))
  forward_lem step zero hi pos fits top h le f = absurd (omega arith)
  forward_lem step (suc fuel) hi pos fits top h le f =
      let round = forward_round step fuel hi (omega arith) in
      elim (Bool-cases (leb (hi + step) te && run step hi)) [
        | inl more ↦
            let room : hi + step ≤ te = ground arith in
            let (up, in_text, (n, e), all, ends) =
              forward_lem step fuel (hi + step) pos fits top (omega arith) room (omega arith) in
            let absorbed : (x : ℕ)
                → hi ≤ x
                → x < forward step fuel (hi + step)
                → (hi + step ≤ x → x < forward step fuel (hi + step) → pad x ≡ true)
                → pad x ≡ true =
              λ x a b later. elim (dec_lt x (hi + step)) [
                | yes lt ↦ run_lem step hi fits h room (ground arith) x a lt
                | no ge ↦ later (omega arith) b
              ] in
            rw (round, more)
              (omega arith, in_text, (suc n, grind arith), λ x a b. absorbed x a b (all x), ends)
        | inr stop ↦
            rw (round, stop)
              (omega arith, le, (0, omega arith), λ x a b. absurd (omega arith), ground arith)
      ]
