-- ===== src/Patch/Compact.antt =====
-- src/patch/compact.rs: dead intervals are cut out of .text, and freed pages out of the file.
pub mod Live
pub mod Text
pub mod Fits
pub mod File
pub mod Compacted
use trim.Prelude.{
  ℕ, zero, suc, ◌+◌, ◌-◌, max, Bool, true, false, List, [], ◌∷◌, ◌++◌, Option, none, some, leb, ltb,
  ◌==◌, ◌&&◌, ◌||◌, if◌then◌else◌, checked_add, length, take, drop, replicate,
}
use trim.Types.{Section}
use trim.Types.Pointer.{slice}
use trim.Patch.Relocs.{Intervals, page_shrink, find_section}

-- `usize` and `u64` are one type here, so `try_from` always succeeds.
unfoldable pub text_file_range : Section → ℕ → Option (ℕ × ℕ)
text_file_range text data_len = elim (checked_add text.offset text.size) [
  | none ↦ none
  | some stop ↦ if leb stop data_len then some (text.offset, text.size) else none
]

-- The loop of `compaction_fits`.
unfoldable pub plan_fits : ℕ → ℕ → Intervals → Bool
plan_fits prev te [] = true
plan_fits prev te ((s, e) ∷ rest) = elim (ltb s prev || (ltb e s || ltb te e)) [
  | true ↦ false
  | false ↦ plan_fits e te rest
]

unfoldable pub compaction_fits : ℕ → List Section → Intervals → Bool
unfolding text_file_range plan_fits
compaction_fits data_len sections intervals = elim (find_section ".text" sections) [
  | none ↦ false
  | some text ↦ elim (checked_add text.vaddr text.size) [
    | none ↦ false
    | some te ↦ elim (text_file_range text data_len) [
      | none ↦ false
      | some range ↦ plan_fits text.vaddr te intervals
    ]
  ]
]

-- `text.get(a..b)`, as the bytes to append.
abbrev pub slice_or_empty : List ℕ → ℕ → ℕ → List ℕ
slice_or_empty text a b = elim (slice text a b) [ none ↦ [] | some bytes ↦ bytes ]

-- The loop of `build_live_text` over the bytes of .text.
unfoldable pub live_from : List ℕ → ℕ → ℕ → ℕ → Intervals → List ℕ
live_from text size vma pos [] = slice_or_empty text pos (length text)
live_from text size vma pos ((s, e) ∷ rest) = elim (ltb s vma || (ltb e s || ltb size (e - vma))) [
  | true ↦ live_from text size vma pos rest
  | false ↦ slice_or_empty text pos (s - vma) ++ live_from text size vma (max pos (e - vma)) rest
]

unfoldable pub build_live_text : List ℕ → Intervals → ℕ → ℕ → ℕ → List ℕ
build_live_text bytes intervals off size vma = elim (slice bytes off (off + size)) [
  | none ↦ []
  | some text ↦ live_from text size vma 0 intervals
]

-- `data.drain(a..b)`.
abbrev pub drain : ℕ → ℕ → List ℕ → List ℕ
drain a b bytes = take a bytes ++ drop b bytes

-- `none` where the source warns and returns false; the file is then unchanged.
unfoldable pub apply_compact : List ℕ → ℕ → ℕ → List ℕ → Intervals → Option (List ℕ)
apply_compact bytes off size new_text intervals =
    let live_len = length new_text in
    let freed = size - live_len in
    let ps = page_shrink intervals in
    let text_end = off + size in
    let pad_end = text_end - ps in
    let padding = replicate (pad_end - off - live_len) 0 in
    let patched = take off bytes ++ (new_text ++ (padding ++ drop pad_end bytes)) in
    if leb live_len size && leb ps freed
    then (if leb off pad_end && leb pad_end (length bytes)
        then some (if ltb 0 ps then drain pad_end text_end patched else patched)
        else none)
    else none

-- The file after compaction, and the dead bytes compacted.
unfoldable pub compact_text : List ℕ → List Section → Intervals → List ℕ × ℕ
compact_text bytes sections intervals = elim (find_section ".text" sections) [
  | none ↦ (bytes, 0)
  | some text ↦ elim (text_file_range text (length bytes)) [
    | none ↦ (bytes, 0)
    | some (off, size) ↦
        let new_text = build_live_text bytes intervals off size text.vaddr in
        let saved = size - length new_text in
        let applied = apply_compact bytes off size new_text intervals in
        if saved == 0
        then (bytes, 0)
        else elim applied [ none ↦ (bytes, 0) | some compacted ↦ (compacted, saved) ]
  ]
]
