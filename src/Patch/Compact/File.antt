-- ===== src/Patch/Compact/File.antt =====
-- src/patch/compact.rs: the file that `compact_text` leaves.
use trim.Prelude.{
  ℕ, suc, ◌+◌, ◌-◌, ◌≤◌, ◌<◌, ◌^◌, Bool, false, List, ◌++◌, ◌≡◌, arith, length, take, drop,
  replicate, ap, ap₂, ◌∙◌, sym, Bool-cases, inl, inr, ltb, le→leb, length-take, length-drop,
  length-append, length-replicate, drop-append, take-append, drop-drop, some, get_elem?,
  get_elem?-append_left, get_elem?-append_right, get_elem?-drop, get_elem?-take, subst,
}
use mathlib.Core.List.{append_assoc}
use trim.Patch.Relocs.{Intervals, in_dead_range, shift_at, total_dead, page_shrink}
use trim.Patch.Relocs.Count.{
  IsPlan, count_below, count_below-in_dead_range, count_below-le, count_below_mono,
  count_below-suc-false,
}
use trim.Patch.Relocs.Shift.{shift_at-count_below, page_shrink_bounds, dead_before-eq-zero}
use trim.Patch.Compact.{apply_compact, drain}
use trim.Patch.Compact.Live.{live_where, length-live_where, get_elem?-live_where, count_below-add}

-- Draining a part that is followed by the original's tail.
drain_tail :
    (xs bytes : List ℕ) (a b : ℕ)
    → length xs ≡ a
    → a ≤ b
    → drain a b (xs ++ drop a bytes) ≡ xs ++ drop b bytes
drain_tail xs bytes a b h k =
    let rest : drop b (xs ++ drop a bytes) ≡ drop b bytes =
      ap (λ (n : ℕ). drop n (xs ++ drop a bytes)) (omega arith)
      ∙ sym (drop-drop (b - a) a (xs ++ drop a bytes))
      ∙ ap (drop (b - a)) (drop-append a xs (drop a bytes) h)
      ∙ drop-drop (b - a) a bytes
      ∙ ap (λ (n : ℕ). drop n bytes) (omega arith) in
    ap₂ (λ (p q : List ℕ). p ++ q) (take-append a xs (drop a bytes) h) rest

append_assoc-three : (a b c d : List ℕ) → (a ++ (b ++ c)) ++ d ≡ a ++ (b ++ (c ++ d))
append_assoc-three a b c d = simp append_assoc

-- .text of `size` bytes at `off` in the file and at `vma` in memory, and a plan inside it.
module _ (bytes : List ℕ) (r : Intervals) (off size vma : ℕ) (fits : off + size ≤ length bytes)
    (plan : IsPlan vma (vma + size) r) (top : vma + size < 2 ^ 64) where
  abbrev pub dead : ℕ → Bool
  dead x = in_dead_range (vma + x) r

  abbrev pub kept : List ℕ
  kept = live_where dead (take size (drop off bytes))

  abbrev pub shrink : ℕ
  shrink = page_shrink r

  count_to : (x : ℕ) → count_below (λ y. in_dead_range y r) (vma + x) ≡ count_below dead x
  count_to x = omega (
    arith,
    count_below-add (λ (y : ℕ). in_dead_range y r) vma x,
    count_below-in_dead_range vma (vma + size) vma r plan,
    dead_before-eq-zero vma (vma + size) vma r plan,
  )

  length-text : length (take size (drop off bytes)) ≡ size
  length-text = omega (arith, length-take size (drop off bytes), length-drop off bytes)

  length-kept_count : length kept + count_below dead size ≡ size
  length-kept_count =
      subst (λ (n : ℕ). length kept + count_below dead n ≡ n) length-text
        (length-live_where dead (take size (drop off bytes)))

  pub length-kept : length kept + total_dead r ≡ size
  length-kept =
      omega (
        arith,
        length-kept_count,
        count_to size,
        (page_shrink_bounds vma (vma + size) r plan top).0,
      )

  shrink-le : shrink ≤ total_dead r
  shrink-le = (page_shrink_bounds vma (vma + size) r plan top).1

  -- The file as the source leaves it.
  abbrev pub padding : List ℕ
  padding = replicate (size - shrink - length kept) 0

  abbrev pub front : List ℕ
  front = take off bytes ++ (kept ++ padding)

  length-front : length front ≡ off + size - shrink
  length-front = omega (
    arith,
    length-append (take off bytes) (kept ++ padding),
    length-append kept padding,
    length-replicate {A = ℕ} (size - shrink - length kept) 0,
    length-take off bytes,
    length-kept,
    shrink-le,
  )

  pub apply_compact-eq :
      apply_compact bytes off size kept r ≡ some (front ++ drop (off + size) bytes)
  unfolding apply_compact
  apply_compact-eq =
      let pad_end = off + size - shrink in
      let pads : List ℕ = replicate (pad_end - off - length kept) 0 in
      let patched : List ℕ = take off bytes ++ (kept ++ (pads ++ drop pad_end bytes)) in
      let sizes : (length kept ≤ size) × (shrink ≤ size - length kept) =
        omega (arith, length-kept, shrink-le) in
      let grouped : patched ≡ front ++ drop pad_end bytes =
        ap (λ (n : ℕ). take off bytes ++ (kept ++ (replicate n 0 ++ drop pad_end bytes)))
          (omega arith)
        ∙ sym (append_assoc-three (take off bytes) kept padding (drop pad_end bytes)) in
      let drained : drain pad_end (off + size) patched ≡ front ++ drop (off + size) bytes =
        ap (drain pad_end (off + size)) grouped
        ∙ drain_tail front bytes pad_end (off + size) length-front (omega arith) in
      let undrained : shrink ≡ 0 → patched ≡ front ++ drop (off + size) bytes =
        λ none_freed. grouped ∙ ap (λ (n : ℕ). front ++ drop n bytes) (omega arith) in
      rw
        (
          le→leb (length kept) size sizes.0,
          le→leb shrink (size - length kept) sizes.1,
          le→leb off pad_end (omega arith),
          le→leb pad_end (length bytes) (omega arith),
          apply_compact,
        )
        (elim (Bool-cases (ltb 0 shrink)) [
          | inl freed ↦ rw freed (ap some drained)
          | inr full ↦ rw full (ap some (undrained (ground arith)))
        ])

  abbrev pub out : List ℕ
  out = front ++ drop (off + size) bytes

  pub length-out : length out + shrink ≡ length bytes
  length-out = omega (
    arith,
    length-append front (drop (off + size) bytes),
    length-front,
    length-drop (off + size) bytes,
    shrink-le,
    length-kept,
  )

  pub out_before : (i : ℕ) → i < off → get_elem? out i ≡ get_elem? bytes i
  out_before i h =
      get_elem?-append_left front (drop (off + size) bytes) i
        (omega (arith, length-front, shrink-le, length-kept))
      ∙ get_elem?-append_left (take off bytes) (kept ++ padding) i
          (omega (arith, length-take off bytes))
      ∙ get_elem?-take off bytes i h

  pub out_after : (i : ℕ) → off + size ≤ i → get_elem? out (i - shrink) ≡ get_elem? bytes i
  out_after i h =
      ap (get_elem? out) {x = i - shrink} {y = length front + (i - (off + size))}
        (omega (arith, length-front, shrink-le, length-kept))
      ∙ get_elem?-append_right front (drop (off + size) bytes) (i - (off + size))
      ∙ get_elem?-drop (off + size) bytes (i - (off + size))
      ∙ ap (get_elem? bytes) (omega arith)

  -- The byte at a live address `vma + x`.
  pub out_live :
      (x : ℕ)
      → x < size
      → dead x ≡ false
      → get_elem? out (off + (x - shift_at (vma + x) r)) ≡ get_elem? bytes (off + x)
  out_live x lt live =
      let j = x - count_below dead x in
      let text = take size (drop off bytes) in
      let shifted : shift_at (vma + x) r ≡ count_below dead x =
        shift_at-count_below vma (vma + size) (vma + x) r plan top ∙ count_to x in
      let here : get_elem? kept j ≡ get_elem? text x =
        get_elem?-live_where dead text x live (omega (arith, length-text)) in
      let room : j < length kept = omega (
        arith,
        length-kept_count,
        count_below_mono dead (suc x) size lt,
        count_below-suc-false dead x live,
        count_below-le dead x,
      ) in
      rw shifted (
        get_elem?-append_left front (drop (off + size) bytes) (off + j)
          (omega (arith, length-front, length-kept, shrink-le))
        ∙ ap (get_elem? front) (omega (arith, length-take off bytes))
        ∙ get_elem?-append_right (take off bytes) (kept ++ padding) j
        ∙ get_elem?-append_left kept padding j room
        ∙ here
        ∙ get_elem?-take size (drop off bytes) x lt
        ∙ get_elem?-drop off bytes x)
