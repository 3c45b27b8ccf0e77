-- ===== src/Patch/Relocs/Defrag.antt =====
-- src/patch/relocs.rs: `expand_one` as a whole, and the plan that `defrag_intervals` makes.
use trim.Prelude.{
  ℕ, suc, ◌+◌, ◌-◌, ◌*◌, ◌^◌, ◌≤◌, ◌<◌, Bool, true, List, [], ◌∷◌, ltb, ◌==◌, if◌then◌else◌, ◌≡◌,
  refl, arith, Bool-cases, inl, inr, ◌∙◌, sym, ◌⊎◌, map, All, wrapping_add, some,
}
use trim.Types.{Section}
use trim.Patch.Relocs.{
  Interval, Intervals, padding_at, expand_one, in_dead_range, merge_intervals, find_section,
  defrag_intervals,
}
use trim.Patch.Relocs.Count.{IsPlan}
use trim.Patch.Relocs.Expand.{pad, back_lem, forward_lem}
use trim.Patch.Relocs.Merge.{merge_intervals-covers}
use trim.Patch.Relocs.Plan.{Within, HasGaps, merge_intervals-IsPlan}

abbrev pub step_of : ℕ → ℕ
step_of align = if ltb 1 align then align else 1

module _ (is_padding : ℕ → Bool) (bytes : List ℕ) (text_offset ts te : ℕ) where
  abbrev expand : ℕ → Interval → Interval
  expand = expand_one is_padding bytes text_offset ts te

  abbrev is_pad : ℕ → Bool
  is_pad = pad is_padding bytes text_offset ts te

  -- What one expansion may do to an interval.
  pub record Absorbs (align : ℕ) (r t : Interval) : Type 0 where
    pub inside_text : Within ts te t
    pub starts : t.0 ≤ r.0
    pub ends : r.1 ≤ t.1
    pub left : (x : ℕ) → t.0 ≤ x → x < r.0 → is_pad x ≡ true
    pub right : (x : ℕ) → r.1 ≤ x → x < t.1 → is_pad x ≡ true
    pub whole : (n : ℕ) × (t.1 ≡ r.1 + n * step_of align)
    pub still : 1 < align → t.0 ≡ r.0

  pub expand_one-Absorbs :
      (align s e : ℕ)
      → text_offset + te < 2 ^ 64
      → te + step_of align < 2 ^ 64
      → Within ts te (s, e)
      → Absorbs align (s, e) (expand align (s, e))
  unfolding expand_one
  expand_one-Absorbs align s e fits top w =
      let step = step_of align in
      let (up, in_text, n, all, _) =
        forward_lem is_padding bytes text_offset ts te step (suc te) e (ground arith) fits top
          (omega arith) w.2 (omega arith) in
      let (down, above, before, _) =
        back_lem is_padding bytes text_offset ts te (s - ts) s fits w.0 (omega arith)
          (omega arith) in
      elim (Bool-cases (step == 1)) [
        | inl bytewise ↦ rw bytewise (record {
          inside_text = (above, omega arith, in_text);
          starts = down;
          ends = up;
          left = before;
          right = all;
          whole = n;
          still = λ h. absurd (ground arith);
        })
        | inr wide ↦ rw wide (record {
          inside_text = (w.0, omega arith, in_text);
          starts = omega arith;
          ends = up;
          left = λ x a b. absurd (omega arith);
          right = all;
          whole = n;
          still = λ h. refl;
        })
      ]

  All-Within :
      (align : ℕ) (r : Intervals)
      → text_offset + te < 2 ^ 64
      → te + step_of align < 2 ^ 64
      → All (Within ts te) r
      → All (Within ts te) (map (expand align) r)
  All-Within align [] fits top h = tt
  All-Within align ((s, e) ∷ r) fits top h =
      ((expand_one-Absorbs align s e fits top h.0).inside_text, All-Within align r fits top h.1)

  -- An address of the expanded intervals was dead already, or is a padding byte; none is lost.
  covers :
      (align : ℕ) (r : Intervals) (x : ℕ)
      → text_offset + te < 2 ^ 64
      → te + step_of align < 2 ^ 64
      → All (Within ts te) r
      → (in_dead_range x r ≡ true → in_dead_range x (map (expand align) r) ≡ true)
        × (in_dead_range x (map (expand align) r) ≡ true
            → (in_dead_range x r ≡ true) ⊎ (is_pad x ≡ true))
  unfolding in_dead_range
  covers align [] x fits top h = (λ q. q, inl)
  covers align ((s, e) ∷ r) x fits top h =
      let a = expand_one-Absorbs align s e fits top h.0 in
      let ih = covers align r x fits top h.1 in
      (λ q. ground (arith, ih, a.starts, a.ends), λ q. ground (arith, ih, a.left x, a.right x))

defrag_eq :
    (is_padding : ℕ → Bool) (bytes : List ℕ) (sections : List Section) (text : Section) (align : ℕ)
    (r : Intervals)
    → find_section ".text" sections ≡ some text
    → text.vaddr + text.size < 2 ^ 64
    → defrag_intervals r bytes sections is_padding align
      ≡ merge_intervals
          (map (expand is_padding bytes text.offset text.vaddr (text.vaddr + text.size) align) r)
unfolding defrag_intervals
defrag_eq is_padding bytes sections text align r found fits =
    let e : wrapping_add text.vaddr text.size ≡ text.vaddr + text.size = omega arith in
    rw (found, defrag_intervals) (rw e refl)

-- With .text inside the 64-bit range and the given intervals well-formed inside .text,
-- `defrag_intervals` makes a plan with gaps inside .text; every dead address stays dead, and every
-- address that becomes dead is a padding byte.
pub defrag_intervals_lem :
    (is_padding : ℕ → Bool) (bytes : List ℕ) (sections : List Section) (text : Section) (align : ℕ)
    (r : Intervals)
    → find_section ".text" sections ≡ some text
    → text.offset + (text.vaddr + text.size) < 2 ^ 64
    → text.vaddr + text.size + step_of align < 2 ^ 64
    → All (Within text.vaddr (text.vaddr + text.size)) r
    → IsPlan text.vaddr
        (text.vaddr + text.size)
        (defrag_intervals r bytes sections is_padding align)
      × HasGaps (defrag_intervals r bytes sections is_padding align)
      × ((x : ℕ)
          → in_dead_range x r ≡ true
          → in_dead_range x (defrag_intervals r bytes sections is_padding align) ≡ true)
      × ((x : ℕ)
          → in_dead_range x (defrag_intervals r bytes sections is_padding align) ≡ true
          → (in_dead_range x r ≡ true)
            ⊎ (padding_at is_padding bytes (text.offset + (x - text.vaddr)) ≡ true))
defrag_intervals_lem is_padding bytes sections text align r found fits top h =
    let te = text.vaddr + text.size in
    let wide = map (expand is_padding bytes text.offset text.vaddr te align) r in
    let moved = λ (x : ℕ). covers is_padding bytes text.offset text.vaddr te align r x fits top h in
    let (plan, gaps) =
      merge_intervals-IsPlan text.vaddr te wide (omega arith)
        (All-Within is_padding bytes text.offset text.vaddr te align r fits top h) in
    rw (defrag_eq is_padding bytes sections text align r found (omega arith)) (
      plan,
      gaps,
      λ x q. merge_intervals-covers x wide ∙ (moved x).0 q,
      λ x q. (moved x).1 (sym (merge_intervals-covers x wide) ∙ q),
    )
