-- ===== src/Format/Elf/Relr/Drain.antt =====
-- src/format/elf/relr.rs: the refusals, the new dynamic tags, and the bytes that leave the file.
use trim.Prelude.{
  ℕ, ◌+◌, ◌*◌, ◌/◌, min, max, Bool, false, not, List, [], ◌∷◌, ◌++◌, Option, none, some, leb, ltb,
  ◌==◌, ◌&&◌, ◌||◌, if◌then◌else◌, any, wrapping_add, wrapping_sub, saturating_add, length,
  get_elem?,
}
use trim.Format.Elf.Relr.Header.{
  Result, and_then, refuse_if, ok_or, Elf, Phdr, Shdr, Dynamic, Table, Split, span, load_range, tag,
}
use trim.Format.Elf.Relr.Split.{rela_size, rel_size, dyn_size, overlaps, rela_offsets}
use trim.Format.Elf.Relr.{word}

-- `DT_JMPREL` and `DT_PLTRELSZ`, unless the size is 0.
abbrev pub plt_relocs : Dynamic → Option (ℕ × ℕ)
plt_relocs dy = elim (tag dy 23) [
  | none ↦ none
  | some addr ↦ elim (tag dy 2) [
    | none ↦ none
    | some size ↦ if ltb 0 size then some (addr, size) else none
  ]
]

unfoldable pub jmprel_overlaps : Dynamic → ℕ → ℕ → Bool
jmprel_overlaps dy addr size = elim (plt_relocs dy) [
  | none ↦ false
  | some (j, n) ↦ ltb j (saturating_add addr size) && ltb addr (saturating_add j n)
]

-- `DT_PLTREL` is 20 and `DT_RELA` 7.
abbrev pub plt_entsize : Dynamic → ℕ
plt_entsize dy = elim (tag dy 20) [
  | none ↦ rel_size
  | some t ↦ if t == 7 then rela_size else rel_size
]

unfoldable pub jmprel_offsets : List ℕ → Elf → Dynamic → Result (List ℕ)
jmprel_offsets d elf dy = elim (plt_relocs dy) [
  | none ↦ Result.ok []
  | some (addr, size) ↦
      and_then (ok_or (load_range elf addr size) "DT_JMPREL outside the file")
        (λ found. and_then (span d found.1 size) (λ raw. rela_offsets raw (plt_entsize dy)))
]

unfoldable pub check_targets : List ℕ → Elf → Dynamic → Table → Split → List ℕ → Result (Unit {0})
check_targets d elf dy t split offsets = and_then (rela_offsets split.keep rela_size) (λ kept.
    and_then (jmprel_offsets d elf dy) (λ plt.
      if any (λ r. overlaps offsets r word) (kept ++ plt)
      then Result.err "a RELATIVE word is also patched by another relocation"
      else if overlaps offsets t.addr t.size || overlaps offsets dy.addr (dy.slots * dyn_size)
      then Result.err "a RELATIVE word lies in .rela.dyn or .dynamic"
      else Result.ok tt))

-- `DT_RELA`, `DT_RELASZ`, `DT_RELAENT` and `DT_RELACOUNT`.
abbrev pub is_rela_tag : ℕ → Bool
is_rela_tag k = ((k == 7 || k == 8) || k == 9) || k == 0x6fff_fff9

unfoldable pub kept_tags : List (ℕ × ℕ) → ℕ → ℕ → List (ℕ × ℕ)
kept_tags [] keep lead = []
kept_tags ((k, v) ∷ tags) keep lead =
    let rest = kept_tags tags keep lead in
    if is_rela_tag k && keep == 0
    then rest
    else if k == 8
    then (k, keep) ∷ rest
    else if k == 0x6fff_fff9
    then (k, lead) ∷ rest
    else (k, v) ∷ rest

unfoldable pub new_tags : Dynamic → Table → Split → ℕ → Result (List (ℕ × ℕ))
new_tags dy t split words =
    let keep = length split.keep in
    let tags =
      kept_tags dy.tags keep split.lead
      ++ ((36, wrapping_add t.addr keep) ∷ (35, words * word) ∷ (37, word) ∷ []) in
    if ltb dy.slots (length tags + 1) then Result.err "no room in .dynamic" else Result.ok tags

abbrev pub holds_bytes : Shdr → Bool
holds_bytes s = not (s.stype == 8)

unfoldable pub sections_end : List Shdr → ℕ → ℕ
sections_end [] end = end
sections_end (s ∷ shdrs) end =
    sections_end shdrs (if holds_bytes s then max end (saturating_add s.offset s.size) else end)

unfoldable pub segments_end : List Phdr → ℕ → ℕ
segments_end [] end = end
segments_end (p ∷ phdrs) end = segments_end phdrs (max end (saturating_add p.offset p.filesz))

-- The sizes of a program header, a section header and the ELF header are 56, 64 and 64.
unfoldable pub content_end : Elf → ℕ
content_end elf =
    max
      (max (segments_end elf.phdrs (sections_end elf.shdrs 64))
        (saturating_add elf.eh.phoff (elf.eh.phnum * 56)))
      (saturating_add elf.eh.shoff (elf.eh.shnum * 64))

-- The least start so far, if the header has bytes and does not start before `from`.
abbrev pub nearer : ℕ → Bool → ℕ → ℕ → ℕ
nearer from has_bytes offset next = if has_bytes && leb from offset then min next offset else next

unfoldable pub next_section : ℕ → List Shdr → ℕ → ℕ
next_section from [] next = next
next_section from (s ∷ shdrs) next =
    next_section from shdrs (nearer from (holds_bytes s && ltb 0 s.size) s.offset next)

unfoldable pub next_segment : ℕ → List Phdr → ℕ → ℕ
next_segment from [] next = next
next_segment from (p ∷ phdrs) next =
    next_segment from phdrs (nearer from (ltb 0 p.filesz) p.offset next)

unfoldable pub next_content : Elf → ℕ → ℕ → ℕ
next_content elf from file_len = nearer from (ltb 0 elf.eh.phnum) elf.eh.phoff (
    nearer from (ltb 0 elf.eh.shnum) elf.eh.shoff
      (next_segment from elf.phdrs (next_section from elf.shdrs file_len)))

-- File bytes inside `[lo, hi)`.
abbrev pub hit : ℕ → ℕ → ℕ → ℕ → Bool
hit lo hi off len = (ltb 0 len && ltb off hi) && ltb lo (saturating_add off len)

abbrev pub is_sec : Option ℕ → ℕ → Bool
is_sec none i = false
is_sec (some sec) i = i == sec

unfoldable pub section_hit : Table → ℕ → ℕ → ℕ → List Shdr → Bool
section_hit t lo hi i [] = false
section_hit t lo hi i (s ∷ shdrs) =
    ((not (is_sec t.sec i) && holds_bytes s) && hit lo hi s.offset s.size)
    || section_hit t lo hi (i + 1) shdrs

unfoldable pub segment_hit : Table → ℕ → ℕ → ℕ → List Phdr → Bool
segment_hit t lo hi i [] = false
segment_hit t lo hi i (p ∷ phdrs) =
    (not (i == t.seg) && hit lo hi p.offset p.filesz) || segment_hit t lo hi (i + 1) phdrs

-- Whether there is a straddler; its name is for the message.
unfoldable pub straddler : Elf → Table → ℕ → ℕ → Bool
straddler elf t lo hi =
    ((section_hit t lo hi 0 elf.shdrs || segment_hit t lo hi 0 elf.phdrs)
      || hit lo hi elf.eh.phoff (elf.eh.phnum * 56))
    || hit lo hi elf.eh.shoff (elf.eh.shnum * 64)

unfoldable pub align_from : ℕ → List Phdr → ℕ → ℕ
align_from from [] align = align
align_from from (p ∷ phdrs) align =
    align_from from phdrs (if ltb 0 p.filesz && leb from p.offset then max align p.align else align)

unfoldable pub shift_align : Elf → ℕ → ℕ
shift_align elf from = align_from from elf.phdrs 0x1000

pub record Drain : Type 0 where
  pub cut : ℕ
  pub len : ℕ
  pub seg : ℕ
  pub new_end : ℕ

unfoldable pub plan_drain : List ℕ → Elf → Table → ℕ → Result Drain
plan_drain d elf t new_end =
    let old_end = wrapping_add t.off t.size in
    let next = next_content elf old_end (length d) in
    let align = shift_align elf next in
    let len = wrapping_sub next new_end / align * align in
    and_then (ok_or (get_elem? elf.phdrs t.seg) "segment vanished") (λ seg.
      refuse_if (not (saturating_add seg.offset seg.filesz == old_end))
        "its segment continues after .rela.dyn"
        (refuse_if (not (seg.memsz == seg.filesz)) "its segment has a zero-filled tail" (
          refuse_if (ltb (content_end elf) (length d))
            "overlay data follow the last section, segment and header table"
            (refuse_if (straddler elf t new_end next) "something lies in the freed range" (
              refuse_if (len == 0) "less than one page is free" (
                Result.ok (record {
                  cut = wrapping_sub next len;
                  len = len;
                  seg = t.seg;
                  new_end = new_end;
                })))))))
