-- ===== src/Format/Wasm/Rebuild/Parts.antt =====
-- src/format/wasm/mod.rs: the sections before the Code section are passed.
use trim.Prelude.{
  ℕ, zero, suc, ◌+◌, ◌<◌, false, List, [], ◌∷◌, ◌++◌, Option, some, ◌≡◌, sym, ◌∙◌, ap, arith, ◌==◌,
  if◌then◌else◌, length, get_elem?, All, length-append, get_elem?-append_right,
}
use mathlib.Core.List.{append_assoc}
use trim.Format.Wasm.Leb.{read_leb128_u32}
use trim.Format.Wasm.Leb.RoundTrip.{IsLeb, read_leb128_u32-IsLeb}
use trim.Format.Wasm.Rebuild.{code_section_from}

-- The id of a section, the bytes of its size, and its contents.
abbrev pub Part : Type 0
Part = ℕ × List ℕ × List ℕ

abbrev pub part_bytes : List Part → List ℕ
part_bytes [] = []
part_bytes ((id, h, contents) ∷ parts) = id ∷ (h ++ (contents ++ part_bytes parts))

-- A section other than the Code section.
abbrev pub IsPart : Part → Type 0
IsPart (id, h, contents) = ((id == 0x0a) ≡ false) × IsLeb h (length contents)

-- The id at a place, and the size after it.
pub at_place :
    (before rest : List ℕ) (x pos : ℕ)
    → pos ≡ length before
    → get_elem? (before ++ (x ∷ rest)) pos ≡ some x
at_place before rest x pos at =
    let e : pos ≡ length before + 0 = omega arith in
    ap (get_elem? (before ++ (x ∷ rest))) e ∙ get_elem?-append_right before (x ∷ rest) 0

pub size_after :
    (before h rest : List ℕ) (x pos v : ℕ)
    → pos ≡ length before
    → IsLeb h v
    → read_leb128_u32 (before ++ (x ∷ (h ++ rest))) (pos + 1) ≡ (v, pos + 1 + length h)
size_after before h rest x pos v at is =
    ap (λ (b : List ℕ). read_leb128_u32 b (pos + 1))
      (sym (append_assoc before (x ∷ []) (h ++ rest)))
    ∙ read_leb128_u32-IsLeb (before ++ (x ∷ [])) h rest (pos + 1) v
        (omega (arith, length-append before (x ∷ []))) is

-- One round of the loop over the sections.
pub code_section_from_round :
    (fuel : ℕ) (bytes : List ℕ) (pos id size start : ℕ)
    → get_elem? bytes pos ≡ some id
    → read_leb128_u32 bytes (pos + 1) ≡ (size, start)
    → code_section_from (suc fuel) bytes pos ≡ (
        if id == 0x0a
        then some (pos, start + size)
        else code_section_from fuel bytes (start + size))
unfolding code_section_from
code_section_from_round fuel bytes pos id size start here sized =
    rw (code_section_from, here)
      (ap
        (λ (r : ℕ × ℕ).
          let t : Option (ℕ × ℕ) =
            if id == 0x0a
            then some (pos, r.1 + r.0)
            else code_section_from fuel bytes (r.1 + r.0) in
          t)
        sized)

-- The sections before the Code section are passed.
pub code_section_from_lem :
    (fuel : ℕ) (parts : List Part) (before h body after : List ℕ) (pos : ℕ)
    → pos ≡ length before
    → length parts < fuel
    → All IsPart parts
    → IsLeb h (length body)
    → code_section_from fuel (before ++ (part_bytes parts ++ (0x0a ∷ (h ++ (body ++ after))))) pos
      ≡ some (
        pos + length (part_bytes parts),
        pos + length (part_bytes parts) + 1 + length h + length body,
      )
code_section_from_lem zero parts before h body after pos at enough are is = absurd (omega arith)
code_section_from_lem (suc fuel) [] before h body after pos at enough are is =
    let e : pos + 0 ≡ pos = omega arith in
    rw e (
      code_section_from_round fuel (before ++ (0x0a ∷ (h ++ (body ++ after)))) pos 0x0a
        (length body) (pos + 1 + length h) (at_place before (h ++ (body ++ after)) 0x0a pos at)
        (size_after before h (body ++ after) 0x0a pos (length body) at is))
code_section_from_lem (suc fuel) ((id, k, contents) ∷ parts) before h body after pos at enough are
      is =
    let code = 0x0a ∷ (h ++ (body ++ after)) in
    let more = part_bytes parts ++ code in
    let next = pos + 1 + length k + length contents in
    let here = id ∷ (k ++ contents) in
    let shape : part_bytes ((id, k, contents) ∷ parts) ++ code ≡ id ∷ (k ++ (contents ++ more)) =
      ap (λ (t : List ℕ). id ∷ t)
        (append_assoc k (contents ++ part_bytes parts) code
          ∙ ap (λ (t : List ℕ). k ++ t) (append_assoc contents (part_bytes parts) code)) in
    let shape' : before ++ (id ∷ (k ++ (contents ++ more))) ≡ (before ++ here) ++ more =
      ap (λ (t : List ℕ). before ++ (id ∷ t)) (sym (append_assoc k contents more))
      ∙ sym (append_assoc before here more) in
    let lengths : length (part_bytes ((id, k, contents) ∷ parts))
        ≡ 1 + length k + length contents + length (part_bytes parts) =
      omega (
        arith,
        length-append k (contents ++ part_bytes parts),
        length-append contents (part_bytes parts),
      ) in
    let round =
      code_section_from_round fuel (before ++ (id ∷ (k ++ (contents ++ more)))) pos id
        (length contents) (pos + 1 + length k) (at_place before (k ++ (contents ++ more)) id pos at)
        (size_after before k (contents ++ more) id pos (length contents) at are.0.1) in
    let further =
      code_section_from_lem fuel parts (before ++ here) h body after next
        (omega (arith, length-append before here, length-append k contents)) (omega arith) are.1
        is in
    let place : pos + (1 + length k + length contents + length (part_bytes parts))
        ≡ next + length (part_bytes parts) =
      omega arith in
    let skip : (if id == 0x0a
          then some (pos, next)
          else code_section_from fuel (before ++ (id ∷ (k ++ (contents ++ more)))) next)
        ≡ code_section_from fuel ((before ++ here) ++ more) next =
      rw are.0.0 (ap (λ (t : List ℕ). code_section_from fuel t next) shape') in
    rw (shape, lengths, place) (round ∙ skip ∙ further)
