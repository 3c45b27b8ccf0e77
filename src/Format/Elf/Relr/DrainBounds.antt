-- ===== src/Format/Elf/Relr/DrainBounds.antt =====
-- src/format/elf/relr.rs: where the bytes that leave the file lie.
use trim.Prelude.{
  ℕ, ◌+◌, ◌*◌, ◌/◌, ◌≤◌, ◌<◌, false, List, [], ◌∷◌, ◌≡◌, arith, ltb, ◌==◌, ◌&&◌, wrapping_add,
  wrapping_sub, u64_mod, length,
}
use native.Mathlib.Nat.{div-mul-le_self}
use trim.Format.Elf.Relr.Header.{Result, Elf, Phdr, Shdr, Table}
use trim.Format.Elf.Relr.Results.{OnOk, OnOk-and_then, OnOk-refuse, OnOk-ok, OnOk-elim}
use trim.Format.Elf.Relr.Drain.{
  Drain, holds_bytes, nearer, next_section, next_segment, next_content, shift_align, straddler,
  content_end, plan_drain,
}

next_section-bounds :
    (from : ℕ) (shdrs : List Shdr) (next : ℕ)
    → from ≤ next
    → (from ≤ next_section from shdrs next) × (next_section from shdrs next ≤ next)
unfolding next_section
next_section-bounds from [] next h = (h, omega arith)
next_section-bounds from (s ∷ shdrs) next h =
    let closer : (from ≤ nearer from (holds_bytes s && ltb 0 s.size) s.offset next)
        × (nearer from (holds_bytes s && ltb 0 s.size) s.offset next ≤ next) =
      (ground arith, ground arith) in
    let (low, high) =
      next_section-bounds from shdrs (nearer from (holds_bytes s && ltb 0 s.size) s.offset next)
        closer.0 in
    (low, omega arith)

next_segment-bounds :
    (from : ℕ) (phdrs : List Phdr) (next : ℕ)
    → from ≤ next
    → (from ≤ next_segment from phdrs next) × (next_segment from phdrs next ≤ next)
unfolding next_segment
next_segment-bounds from [] next h = (h, omega arith)
next_segment-bounds from (p ∷ phdrs) next h =
    let closer : (from ≤ nearer from (ltb 0 p.filesz) p.offset next)
        × (nearer from (ltb 0 p.filesz) p.offset next ≤ next) =
      (ground arith, ground arith) in
    let (low, high) =
      next_segment-bounds from phdrs (nearer from (ltb 0 p.filesz) p.offset next) closer.0 in
    (low, omega arith)

next_content-bounds :
    (elf : Elf) (from file_len : ℕ)
    → from ≤ file_len
    → (from ≤ next_content elf from file_len) × (next_content elf from file_len ≤ file_len)
unfolding next_content
next_content-bounds elf from file_len h =
    let (l, h1) = next_section-bounds from elf.shdrs file_len h in
    let (l', h2) = next_segment-bounds from elf.phdrs (next_section from elf.shdrs file_len) l in
    (ground arith, ground arith)

-- What a plan promises.
abbrev IsDrain : List ℕ → Elf → Table → ℕ → Drain → Type 0
IsDrain d elf t new_end drain =
    (new_end ≤ drain.cut)
    × (0 < drain.len)
    × (t.off + t.size ≤ drain.cut + drain.len)
    × (drain.cut + drain.len ≤ length d)
    × (straddler elf t new_end (drain.cut + drain.len) ≡ false)
    × (length d ≤ content_end elf)

plan_drain-IsDrain :
    (d : List ℕ) (elf : Elf) (t : Table) (new_end : ℕ)
    → new_end ≤ t.off + t.size
    → t.off + t.size ≤ length d
    → length d < u64_mod
    → OnOk (IsDrain d elf t new_end) (plan_drain d elf t new_end)
unfolding plan_drain
plan_drain-IsDrain d elf t new_end h h' top =
    let P = IsDrain d elf t new_end in
    let old : wrapping_add t.off t.size ≡ t.off + t.size = omega arith in
    let next = next_content elf (t.off + t.size) (length d) in
    let align = shift_align elf next in
    let (low, high) = next_content-bounds elf (t.off + t.size) (length d) h' in
    let len = wrapping_sub next new_end / align * align in
    let taken = div-mul-le_self (wrapping_sub next new_end) align in
    let made : Drain = record {
      cut = wrapping_sub next len;
      len = len;
      seg = t.seg;
      new_end = new_end;
    } in
    rw old (
      OnOk-and_then P _ _ (λ seg. OnOk-refuse P _ _ _ (λ _. OnOk-refuse P _ _ _ (λ _.
        OnOk-refuse P (ltb (content_end elf) (length d)) _ _ (λ content.
          OnOk-refuse P (straddler elf t new_end next) _ _ (λ free.
            OnOk-refuse P (len == 0) _ _ (λ some_left. OnOk-ok P made (
              let all : wrapping_sub next len + len ≡ next = omega arith in
              (
                omega arith,
                ground arith,
                omega arith,
                omega arith,
                rw all free,
                ground arith,
              )))))))))

-- What holds of a plan that is made.
pub plan_drain_guards :
    (d : List ℕ) (elf : Elf) (t : Table) (new_end : ℕ) (drain : Drain)
    → new_end ≤ t.off + t.size
    → t.off + t.size ≤ length d
    → length d < u64_mod
    → plan_drain d elf t new_end ≡ Result.ok drain
    → (new_end ≤ drain.cut)
      × (0 < drain.len)
      × (t.off + t.size ≤ drain.cut + drain.len)
      × (drain.cut + drain.len ≤ length d)
      × (straddler elf t new_end (drain.cut + drain.len) ≡ false)
      × (length d ≤ content_end elf)
plan_drain_guards d elf t new_end drain h h' top e =
    OnOk-elim (IsDrain d elf t new_end) (plan_drain d elf t new_end) drain e
      (plan_drain-IsDrain d elf t new_end h h' top)
