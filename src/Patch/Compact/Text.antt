-- ===== src/Patch/Compact/Text.antt =====
-- src/patch/compact.rs: on a plan, `build_live_text` keeps exactly the bytes at live addresses.
use mathlib.Core.Path.{fun_ext}
use trim.Prelude.{
  ℕ, zero, suc, ◌+◌, ◌-◌, ◌≤◌, ◌<◌, max, Bool, true, false, List, [], ◌∷◌, ◌++◌, ◌≡◌, refl, arith,
  length, take, drop, ap, ap₂, ◌∙◌, sym, ltb, ◌||◌, le→leb, drop-drop, length-take, length-drop,
  Option, some, none,
}
use trim.Types.Pointer.{slice}
use trim.Patch.Relocs.{Intervals, in_dead_range}
use trim.Patch.Relocs.Count.{IsPlan, IsPlan-le, le_of_in_dead_range}
use trim.Patch.Compact.{slice_or_empty, live_from, build_live_text}
use trim.Patch.Compact.Live.{live_where, live_where_none, live_where_copy, live_where-drop}

take_all : (n : ℕ) (xs : List ℕ) → length xs ≤ n → take n xs ≡ xs
take_all zero [] h = refl
take_all zero (x ∷ xs) h = absurd (omega arith)
take_all (suc n) [] h = refl
take_all (suc n) (x ∷ xs) h = ap (λ (t : List ℕ). x ∷ t) (take_all n xs (omega arith))

pub slice-eq :
    (text : List ℕ) (a b : ℕ)
    → a ≤ b
    → b ≤ length text
    → slice text a b ≡ some (take (b - a) (drop a text))
slice-eq text a b h k = rw (le→leb a b h, le→leb b (length text) k) refl

slice_or_empty-eq :
    (text : List ℕ) (a b : ℕ)
    → a ≤ b
    → b ≤ length text
    → slice_or_empty text a b ≡ take (b - a) (drop a text)
slice_or_empty-eq text a b h k =
    ap (λ (o : Option (List ℕ)). let t : List ℕ = elim o [ none ↦ [] | some bytes ↦ bytes ] in t)
      (slice-eq text a b h k)

live_from_last :
    (text : List ℕ) (size vma pos : ℕ)
    → pos ≤ length text
    → live_from text size vma pos [] ≡ drop pos text
unfolding live_from
live_from_last text size vma pos h =
    slice_or_empty-eq text pos (length text) h (omega arith)
    ∙ take_all (length text - pos) (drop pos text) (omega (arith, length-drop pos text))

-- One round on an interval of a plan.
live_from_round :
    (text : List ℕ) (size vma pos s e : ℕ) (rest : Intervals)
    → vma + pos ≤ s
    → s ≤ e
    → e ≤ vma + size
    → size ≡ length text
    → live_from text size vma pos ((s, e) ∷ rest)
      ≡ take (s - vma - pos) (drop pos text) ++ live_from text size vma (e - vma) rest
unfolding live_from
live_from_round text size vma pos s e rest h k m len =
    let used : (ltb s vma || (ltb e s || ltb size (e - vma))) ≡ false = ground arith in
    let next : max pos (e - vma) ≡ e - vma = omega arith in
    rw (used, live_from)
      (rw next (
        ap (λ (t : List ℕ). t ++ live_from text size vma (e - vma) rest)
          (slice_or_empty-eq text pos (s - vma) (omega arith) (omega arith))))

-- The test at offset `x` from an address.
abbrev pub dead_from : ℕ → Intervals → ℕ → Bool
dead_from a r x = in_dead_range (a + x) r

in_dead_range_past :
    (s e y : ℕ) (rest : Intervals) → e ≤ y → in_dead_range y ((s, e) ∷ rest) ≡ in_dead_range y rest
unfolding in_dead_range
in_dead_range_past s e y rest h = ground arith

-- The dead region of the first interval of a plan, seen from `a` at or before it.
pub live_where_round :
    (bs : List ℕ) (a s e hi : ℕ) (rest : Intervals)
    → IsPlan a hi ((s, e) ∷ rest)
    → live_where (dead_from a ((s, e) ∷ rest)) bs
      ≡ take (s - a) bs ++ live_where (dead_from e rest) (drop (e - a) bs)
unfolding in_dead_range
live_where_round bs a s e hi rest plan =
    let dead = dead_from a ((s, e) ∷ rest) in
    let n = s - a in
    let m = e - s in
    let before : (x : ℕ) → x < n → dead x ≡ false =
      λ x lt. ground (arith, le_of_in_dead_range e hi (a + x) rest plan.2) in
    let within : (x : ℕ) → x < m → dead (n + x) ≡ true = λ x lt. ground arith in
    let after : (x : ℕ) → dead (n + (m + x)) ≡ dead_from e rest x = λ x.
      ap (λ (y : ℕ). in_dead_range y ((s, e) ∷ rest)) (omega arith)
      ∙ in_dead_range_past s e (e + x) rest (omega arith) in
    let dropped : drop m (drop n bs) ≡ drop (e - a) bs =
      drop-drop m n bs ∙ ap (λ (k : ℕ). drop k bs) (omega arith) in
    live_where_copy n dead bs before
    ∙ ap (λ (t : List ℕ). take n bs ++ t)
        (live_where-drop m (λ x. dead (n + x)) (drop n bs) within
          ∙ ap₂ (λ (q : ℕ → Bool) (t : List ℕ). live_where q t) (fun_ext after) dropped)

live_from-live_where :
    (text : List ℕ) (size vma pos : ℕ) (r : Intervals)
    → size ≡ length text
    → pos ≤ size
    → IsPlan (vma + pos) (vma + size) r
    → live_from text size vma pos r ≡ live_where (dead_from (vma + pos) r) (drop pos text)
live_from-live_where text size vma pos [] len h plan =
    live_from_last text size vma pos (omega arith)
    ∙ sym
        (live_where_none (dead_from (vma + pos) []) (drop pos text) (λ x. nothing (vma + pos + x)))
  where
    nothing : (x : ℕ) → in_dead_range x [] ≡ false
    nothing x = unfold in_dead_range in refl
live_from-live_where text size vma pos ((s, e) ∷ rest) len h plan =
    let top = IsPlan-le e (vma + size) rest plan.2 in
    let at_e : vma + (e - vma) ≡ e = omega arith in
    let later : live_from text size vma (e - vma) rest
        ≡ live_where (dead_from e rest) (drop (e - vma) text) =
      live_from-live_where text size vma (e - vma) rest len (omega arith) (rw at_e plan.2)
      ∙ ap (λ (k : ℕ). live_where (dead_from k rest) (drop (e - vma) text)) at_e in
    let same_start : s - vma - pos ≡ s - (vma + pos) = omega arith in
    let same_drop : drop (e - vma) text ≡ drop (e - (vma + pos)) (drop pos text) =
      ap (λ (k : ℕ). drop k text) (omega arith) ∙ sym (drop-drop (e - (vma + pos)) pos text) in
    live_from_round text size vma pos s e rest plan.0 plan.1 top len
    ∙ ap₂ (λ (n : ℕ) (t : List ℕ). take n (drop pos text) ++ t) same_start
        (later ∙ ap (live_where (dead_from e rest)) same_drop)
    ∙ sym (live_where_round (drop pos text) (vma + pos) s e (vma + size) rest plan)

-- Where the .text bytes lie inside the file and the intervals are a plan inside .text,
-- `build_live_text` is the .text bytes without those at dead addresses, in order.
pub build_live_text-live_where :
    (bytes : List ℕ) (r : Intervals) (off size vma : ℕ)
    → off + size ≤ length bytes
    → IsPlan vma (vma + size) r
    → build_live_text bytes r off size vma
      ≡ live_where (λ x. in_dead_range (vma + x) r) (take size (drop off bytes))
unfolding build_live_text
build_live_text-live_where bytes r off size vma fits plan =
    let text = take (off + size - off) (drop off bytes) in
    let same : off + size - off ≡ size = omega arith in
    let at_vma : vma + 0 ≡ vma = omega arith in
    let len : size ≡ length text =
      omega (arith, length-take (off + size - off) (drop off bytes), length-drop off bytes) in
    rw (slice-eq bytes off (off + size) (omega arith) fits, build_live_text)
      (live_from-live_where text size vma 0 r len (omega arith) (rw at_vma plan)
        ∙ ap₂ (λ (k n : ℕ). live_where (dead_from k r) (take n (drop off bytes))) at_vma same)
