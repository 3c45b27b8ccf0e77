-- ===== src/Format/Elf/Relr/Undescribed.antt =====
-- src/format/elf/relr.rs: no header describes the bytes that a planned drain takes.
use trim.Prelude.{
  ℕ, zero, suc, ◌+◌, ◌*◌, ◌≤◌, ◌<◌, true, false, List, [], ◌∷◌, Option, none, some, ◌≡◌, ◌≢◌, refl,
  ap, arith, ◌==◌, ==_iff, leb, if◌then◌else◌, ◌⊎◌, inl, inr, Bool-cases, max, saturating_add,
  u64_mod, length, get_elem?,
}
use trim.Format.Elf.Relr.Header.{Result, Elf, Phdr, Shdr, Table}
use trim.Format.Elf.Relr.Drain.{
  Drain, holds_bytes, hit, is_sec, section_hit, segment_hit, straddler, sections_end, segments_end,
  content_end, plan_drain,
}
use trim.Format.Elf.Relr.DrainBounds.{plan_drain_guards}

-- The byte `x` of the file is one of the `len` bytes at `off`.
abbrev pub Covers : ℕ → ℕ → ℕ → Type 0
Covers off len x = (off ≤ x) × (x < off + len)

-- No section but the table's, no segment but the table's and no header table holds the byte `x`.
-- A section of type 8, SHT_NOBITS, has no bytes in the file.
abbrev pub Undescribed : Elf → Table → ℕ → Type 0
Undescribed elf t x =
    ((j : ℕ) (s : Shdr)
      → get_elem? elf.shdrs j ≡ some s
      → s.stype ≢ 8
      → t.sec ≢ some j
      → ¬ Covers s.offset s.size x)
    × ((j : ℕ) (p : Phdr)
        → get_elem? elf.phdrs j ≡ some p
        → j ≢ t.seg
        → ¬ Covers p.offset p.filesz x)
    × ¬ Covers elf.eh.phoff (elf.eh.phnum * 56) x
    × ¬ Covers elf.eh.shoff (elf.eh.shnum * 64) x

-- The ELF header, a section, a segment or a header table goes at least to `end`.
abbrev pub GoesTo : Elf → ℕ → Type 0
GoesTo elf end =
    (end ≤ 64)
    ⊎ ((j : ℕ) × (s : Shdr) × (get_elem? elf.shdrs j ≡ some s)
        × (s.stype ≢ 8)
        × (end ≤ s.offset + s.size))
    ⊎ ((j : ℕ) × (p : Phdr) × (get_elem? elf.phdrs j ≡ some p) × (end ≤ p.offset + p.filesz))
    ⊎ (end ≤ elf.eh.phoff + elf.eh.phnum * 56)
    ⊎ (end ≤ elf.eh.shoff + elf.eh.shnum * 64)

is_sec_other : (sec : Option ℕ) (i : ℕ) → sec ≢ some i → is_sec sec i ≡ false
is_sec_other none i h = refl
is_sec_other (some sec) i h = elim (Bool-cases (i == sec)) [
  | inl same ↦ let e : sec ≡ i = ground arith in absurd (h (ap some e))
  | inr other ↦ other
]

==_other : (a b : ℕ) → a ≢ b → (a == b) ≡ false
==_other a b h = elim (Bool-cases (a == b)) [
  | inl same ↦ absurd (h ((==_iff a b).0 same))
  | inr other ↦ other
]

module _ (lo hi x : ℕ) (low : lo ≤ x) (high : x < hi) (top : hi < u64_mod) where
  uncovered : (off len : ℕ) → hit lo hi off len ≡ false → ¬ Covers off len x
  uncovered off len h (from, to) = absurd (ground arith)

  section_hit-uncovered :
      (t : Table) (i j : ℕ) (shdrs : List Shdr) (s : Shdr)
      → section_hit t lo hi i shdrs ≡ false
      → get_elem? shdrs j ≡ some s
      → s.stype ≢ 8
      → t.sec ≢ some (i + j)
      → ¬ Covers s.offset s.size x
  unfolding section_hit
  section_hit-uncovered t i j [] s h at bits own = absurd cc
  section_hit-uncovered t i zero (s' ∷ shdrs) s h at bits own =
      let e : s ≡ s' = cc in
      let e' : i + 0 ≡ i = omega arith in
      let foreign = is_sec_other t.sec i (rw e' at own) in
      let held = ==_other s'.stype 8 (rw e at bits) in
      let clear : hit lo hi s'.offset s'.size ≡ false =
        let h' = rw (foreign, held) at h in ground arith in
      rw e (uncovered s'.offset s'.size clear)
  section_hit-uncovered t i (suc j) (s' ∷ shdrs) s h at bits own =
      let e : i + suc j ≡ i + 1 + j = omega arith in
      section_hit-uncovered t (i + 1) j shdrs s (ground arith) at bits (rw e at own)

  segment_hit-uncovered :
      (t : Table) (i j : ℕ) (phdrs : List Phdr) (p : Phdr)
      → segment_hit t lo hi i phdrs ≡ false
      → get_elem? phdrs j ≡ some p
      → i + j ≢ t.seg
      → ¬ Covers p.offset p.filesz x
  unfolding segment_hit
  segment_hit-uncovered t i j [] p h at own = absurd cc
  segment_hit-uncovered t i zero (p' ∷ phdrs) p h at own =
      let e : p ≡ p' = cc in
      let e' : i + 0 ≡ i = omega arith in
      let foreign : (i == t.seg) ≡ false = ==_other i t.seg (rw e' at own) in
      let clear : hit lo hi p'.offset p'.filesz ≡ false =
        let h' = rw foreign at h in ground arith in
      rw e (uncovered p'.offset p'.filesz clear)
  segment_hit-uncovered t i (suc j) (p' ∷ phdrs) p h at own =
      let e : i + suc j ≡ i + 1 + j = omega arith in
      segment_hit-uncovered t (i + 1) j phdrs p (ground arith) at (rw e at own)

  straddler-Undescribed :
      (elf : Elf) (t : Table) → straddler elf t lo hi ≡ false → Undescribed elf t x
  unfolding straddler
  straddler-Undescribed elf t h = (
    λ j s at bits own.
        let e : 0 + j ≡ j = omega arith in
        section_hit-uncovered t 0 j elf.shdrs s (ground arith) at bits (rw e own),
    λ j p at own.
        let e : 0 + j ≡ j = omega arith in
        segment_hit-uncovered t 0 j elf.phdrs p (ground arith) at (rw e own),
    uncovered elf.eh.phoff (elf.eh.phnum * 56) (ground arith),
    uncovered elf.eh.shoff (elf.eh.shnum * 64) (ground arith),
  )

sections_end-reached :
    (shdrs : List Shdr) (from end : ℕ)
    → end ≤ sections_end shdrs from
    → (end ≤ from)
      ⊎ ((j : ℕ) × (s : Shdr) × (get_elem? shdrs j ≡ some s)
          × (s.stype ≢ 8)
          × (end ≤ s.offset + s.size))
unfolding sections_end
sections_end-reached [] from end h = inl h
sections_end-reached (s ∷ shdrs) from end h =
    let next = if holds_bytes s then max from (saturating_add s.offset s.size) else from in
    elim (sections_end-reached shdrs next end h) [
      | inr (j, s', at, bits, reach) ↦ inr (suc j, s', at, bits, reach)
      | inl here ↦ elim (Bool-cases (leb end from)) [
        | inl old ↦ inl (ground arith)
        | inr new ↦
            let held : holds_bytes s ≡ true = ground arith in
            inr (0, s, refl, λ c. absurd (ground arith), ground arith)
      ]
    ]

segments_end-reached :
    (phdrs : List Phdr) (from end : ℕ)
    → end ≤ segments_end phdrs from
    → (end ≤ from)
      ⊎ ((j : ℕ) × (p : Phdr) × (get_elem? phdrs j ≡ some p) × (end ≤ p.offset + p.filesz))
unfolding segments_end
segments_end-reached [] from end h = inl h
segments_end-reached (p ∷ phdrs) from end h =
    elim (segments_end-reached phdrs (max from (saturating_add p.offset p.filesz)) end h) [
      | inr (j, p', at, reach) ↦ inr (suc j, p', at, reach)
      | inl here ↦ elim (Bool-cases (leb end from)) [
        | inl old ↦ inl (ground arith)
        | inr new ↦ inr (0, p, refl, ground arith)
      ]
    ]

content_end-GoesTo : (elf : Elf) (end : ℕ) → end ≤ content_end elf → GoesTo elf end
unfolding content_end
content_end-GoesTo elf end h =
    let sections = sections_end elf.shdrs 64 in
    elim (Bool-cases (leb end (elf.eh.phoff + elf.eh.phnum * 56))) [
      | inl programs ↦ inr (inr (inr (inl (ground arith))))
      | inr more ↦ elim (Bool-cases (leb end (elf.eh.shoff + elf.eh.shnum * 64))) [
        | inl table ↦ inr (inr (inr (inr (ground arith))))
        | inr still ↦ elim (segments_end-reached elf.phdrs sections end (ground arith)) [
          | inr segment ↦ inr (inr (inl segment))
          | inl within ↦ elim (sections_end-reached elf.shdrs 64 end within) [
            | inr section ↦ inr (inl section)
            | inl header ↦ inl header
          ]
        ]
      ]
    ]

-- For a table that ends in the file, a new end of it that is not past the old one, and a file of less
-- than 2^64 bytes: a planned drain takes some bytes of the file, from the new end of the table on
-- and at least up to its old end. No section and no segment but the table's own, and no header
-- table, holds a byte between the new end and the end of the drain; and the file ends where the ELF
-- header, a section, a segment or a header table ends, or before.
pub plan_drain-Undescribed :
    (d : List ℕ) (elf : Elf) (t : Table) (new_end : ℕ) (drain : Drain)
    → new_end ≤ t.off + t.size
    → t.off + t.size ≤ length d
    → length d < u64_mod
    → plan_drain d elf t new_end ≡ Result.ok drain
    → (new_end ≤ drain.cut)
      × (0 < drain.len)
      × (t.off + t.size ≤ drain.cut + drain.len)
      × (drain.cut + drain.len ≤ length d)
      × ((x : ℕ) → new_end ≤ x → x < drain.cut + drain.len → Undescribed elf t x)
      × GoesTo elf (length d)
plan_drain-Undescribed d elf t new_end drain h h' top e =
    let (first, some_left, old, inside, clear, content) =
      plan_drain_guards d elf t new_end drain h h' top e in
    (
      first,
      some_left,
      old,
      inside,
      λ x low high.
          straddler-Undescribed new_end (drain.cut + drain.len) x low high (omega arith) elf t
            clear,
      content_end-GoesTo elf (length d) content,
    )
