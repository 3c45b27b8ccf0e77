-- ===== src/Format/Wasm/Rebuild/Section.antt =====
-- src/format/wasm/mod.rs: a module whose Code section holds bodies gets one with new bodies.
use trim.Prelude.{
  ℕ, suc, ◌+◌, ◌-◌, ◌≤◌, min, true, List, [], ◌∷◌, ◌++◌, Option, none, some, ◌≡◌, refl, sym, ◌∙◌,
  ap, arith, leb, if◌then◌else◌, length, take, All, Bool-cases, Option-cases, inl, inr, nat_eq,
  length-append, take-append, drop-append, le→leb,
}
use mathlib.Core.List.{append_assoc}
use trim.Prelude.Sets.{contains}
use trim.Types.Pointer.{slice}
use trim.Format.Ranges.{BlockRanges, ranges_of}
use trim.Format.Wasm.Leb.{read_leb128_u32}
use trim.Format.Wasm.Leb.RoundTrip.{IsLeb, read_leb128_u32-IsLeb}
use trim.Format.Wasm.Rebuild.{excise_ranges, emit_dead_func, sized, rebuild_entry, rebuild_from}

-- The middle of three parts.
pub slice-middle :
    (before middle after : List ℕ) (a b : ℕ)
    → a ≡ length before
    → b ≡ a + length middle
    → slice (before ++ (middle ++ after)) a b ≡ some middle
slice-middle before middle after a b ha hb =
    let e1 : leb a b ≡ true = le→leb a b (omega arith) in
    let e2 : leb b (length (before ++ (middle ++ after))) ≡ true =
      le→leb b (length (before ++ (middle ++ after)))
        (omega (arith, length-append before (middle ++ after), length-append middle after)) in
    let e3 : b - a ≡ length middle = omega arith in
    rw (e1, e2)
      (ap some (
        ap (take (b - a)) (drop-append a before (middle ++ after) (sym ha))
        ∙ take-append (b - a) middle after (sym e3)))

-- A body and the bytes that its size is written in.
abbrev pub Entry : Type 0
Entry = List ℕ × List ℕ

abbrev pub IsEntry : Entry → Type 0
IsEntry e = IsLeb e.0 (length e.1)

unfoldable pub entry_bytes : List Entry → List ℕ
entry_bytes [] = []
entry_bytes ((h, b) ∷ entries) = h ++ (b ++ entry_bytes entries)

module _ (dead_offsets : List ℕ) (block_ranges : BlockRanges) where
  -- What a body that starts at `bcs` becomes: a dead one is cut to three bytes unless it is that
  -- short, dead ranges are cut out of a live one, and the others are copied with their size.
  unfoldable pub new_entry : ℕ → Entry → List ℕ
  new_entry bcs (h, b) =
      if contains dead_offsets bcs
      then (if leb (length h + length b) 4 then h ++ b else 0x03 ∷ 0x00 ∷ 0x00 ∷ 0x0b ∷ [])
      else (elim (ranges_of bcs block_ranges) [
        | none ↦ h ++ b
        | some ranges ↦ sized (excise_ranges b bcs ranges)
      ])

  unfoldable pub new_entries : ℕ → List Entry → List ℕ
  new_entries pos [] = []
  new_entries pos ((h, b) ∷ entries) =
      new_entry (pos + length h) (h, b) ++ new_entries (pos + length h + length b) entries

  rebuild_entry-new_entry :
      (before h b after : List ℕ) (pos code_end : ℕ)
      → pos ≡ length before
      → pos + length h + length b ≤ code_end
      → rebuild_entry
          (before ++ (h ++ (b ++ after)))
          code_end
          dead_offsets
          block_ranges
          pos
          (pos + length h)
          (pos + length h + length b)
        ≡ some (new_entry (pos + length h) (h, b))
  unfolding rebuild_entry new_entry emit_dead_func
  rebuild_entry-new_entry before h b after pos code_end at fits =
      let end : min (pos + length h + length b) code_end ≡ pos + length h + length b =
        omega arith in
      let whole : slice (before ++ (h ++ (b ++ after))) pos (pos + length h + length b)
          ≡ some (h ++ b) =
        ap (λ (x : List ℕ). slice (before ++ x) pos (pos + length h + length b))
          (sym (append_assoc h b after))
        ∙ slice-middle before (h ++ b) after pos (pos + length h + length b) at
            (omega (arith, length-append h b)) in
      let body : slice (before ++ (h ++ (b ++ after))) (pos + length h) (pos + length h + length b)
          ≡ some b =
        ap (λ (x : List ℕ). slice x (pos + length h) (pos + length h + length b))
          (sym (append_assoc before h (b ++ after)))
        ∙ slice-middle (before ++ h) b after (pos + length h) (pos + length h + length b)
            (omega (arith, length-append before h)) refl in
      let size : pos + length h + length b - pos ≡ length h + length b = omega arith in
      let copied = ap (slice (before ++ (h ++ (b ++ after))) pos) end ∙ whole in
      let cut = ap (slice (before ++ (h ++ (b ++ after))) (pos + length h)) end ∙ body in
      elim (Bool-cases (contains dead_offsets (pos + length h))) [
        | inl dead ↦ elim (Bool-cases (leb (length h + length b) 4)) [
          | inl short ↦ rw (dead, size, short) copied
          | inr long ↦ rw (dead, size, long) refl
        ]
        | inr live ↦ elim (Option-cases (ranges_of (pos + length h) block_ranges)) [
          | inl none_dead ↦ rw (live, none_dead) copied
          | inr (ranges, found) ↦ rw (live, found, cut) refl
        ]
      ]

  -- One round: the size, the new entry and the others.
  rebuild_from_round :
      (n : ℕ) (bytes : List ℕ) (code_end pos body_size bcs : ℕ) (entry rest : List ℕ)
      → read_leb128_u32 bytes pos ≡ (body_size, bcs)
      → rebuild_entry bytes code_end dead_offsets block_ranges pos bcs (bcs + body_size)
        ≡ some entry
      → rebuild_from n bytes code_end dead_offsets block_ranges (bcs + body_size) ≡ some rest
      → rebuild_from (suc n) bytes code_end dead_offsets block_ranges pos ≡ some (entry ++ rest)
  unfolding rebuild_from
  rebuild_from_round n bytes code_end pos body_size bcs entry rest size new further =
      ap
        (λ (r : ℕ × ℕ).
          let t : Option (List ℕ) =
            elim (rebuild_entry bytes code_end dead_offsets block_ranges pos r.1 (r.1 + r.0)) [
              | none ↦ none
              | some entry ↦
                  elim (rebuild_from n bytes code_end dead_offsets block_ranges (r.1 + r.0)) [
                    | none ↦ none
                    | some rest ↦ some (entry ++ rest)
                  ]
            ] in
          t)
        size
      ∙ rw (new, further) refl

  pub rebuild_from-new_entries :
      (entries : List Entry) (before after : List ℕ) (pos code_end : ℕ)
      → pos ≡ length before
      → pos + length (entry_bytes entries) ≤ code_end
      → All IsEntry entries
      → rebuild_from
          (length entries)
          (before ++ (entry_bytes entries ++ after))
          code_end
          dead_offsets
          block_ranges
          pos
        ≡ some (new_entries pos entries)
  unfolding rebuild_from new_entries entry_bytes
  rebuild_from-new_entries [] before after pos code_end at fits are = refl
  rebuild_from-new_entries ((h, b) ∷ entries) before after pos code_end at fits are =
      let rest = entry_bytes entries ++ after in
      let shape : before ++ ((h ++ (b ++ entry_bytes entries)) ++ after)
          ≡ before ++ (h ++ (b ++ rest)) =
        ap (λ (x : List ℕ). before ++ x)
          (append_assoc h (b ++ entry_bytes entries) after
            ∙ ap (λ (x : List ℕ). h ++ x) (append_assoc b (entry_bytes entries) after)) in
      let shape' : before ++ (h ++ (b ++ rest)) ≡ (before ++ (h ++ b)) ++ rest = sym (
        append_assoc before (h ++ b) rest
        ∙ ap (λ (x : List ℕ). before ++ x) (append_assoc h b rest)) in
      let long = length-append h (b ++ entry_bytes entries) in
      let long' = length-append b (entry_bytes entries) in
      let size = read_leb128_u32-IsLeb before h (b ++ rest) pos (length b) at are.0 in
      let entry = rebuild_entry-new_entry before h b rest pos code_end at (omega arith) in
      let further =
        ap
          (λ (x : List ℕ).
            rebuild_from (length entries) x code_end dead_offsets block_ranges
              (pos + length h + length b))
          shape'
        ∙ rebuild_from-new_entries entries (before ++ (h ++ b)) after (pos + length h + length b)
            code_end (omega (arith, length-append before (h ++ b), length-append h b)) (omega arith)
            are.1 in
      rw shape (
        rebuild_from_round (length entries) (before ++ (h ++ (b ++ rest))) code_end pos (length b)
          (pos + length h) (new_entry (pos + length h) (h, b))
          (new_entries (pos + length h + length b) entries) size entry further)
