-- ===== src/Format/Java/Compact/Branches.antt =====
-- src/format/java/bytecode.rs: where the branches of patched code lead.
use trim.Prelude.{
  All-append, map-append, ◌⊎◌, ℕ, zero, suc, ◌+◌, ◌-◌, ◌*◌, ◌^◌, ◌≤◌, ◌<◌, false, List, [], ◌∷◌,
  ◌++◌, map, leb, ◌==◌, ◌||◌, ◌≡◌, refl, sym, ap, ap₂, ◌∙◌, arith, length, take, All, Bool-cases,
  inl, inr, get_elem?, leb→le,
}
use trim.Types.{Endian}
use trim.Types.Pointer.{decode_bytes, to_le_bytes}
use trim.Patch.Relocs.{Intervals, in_dead_range}
use trim.Patch.Relocs.Count.{IsPlan, count_below}
use trim.Format.Java.Classfile.{be_bytes}
use trim.Format.Java.Bytecode.{opcode_length, is_short_branch, is_wide_branch}
use trim.Format.Java.Compact.Offsets.{shifted-count_below, shifted-Closer, short_lands, wide_lands}
use trim.Format.Java.Compact.{
  switch_from, branch_target, shifted, offset_bytes, patched_offset, new_operands, patch_from,
  patch_code_branches,
}
use trim.Format.Java.Compact.Walk.{
  Branch, leads_to, branch_at, branches_from, branches, length-patch_from, take-patch_from,
  first-patch_from, length_short, length_wide, length_first, length_prefix, length_single,
}

-- The place of a byte when the bytes of the dead ranges before it are gone.
abbrev pub place_after : Intervals → ℕ → ℕ
place_after r a = a - count_below (λ y. in_dead_range y r) a

module _ (r : Intervals) where
  -- The same branch with its new offset.
  abbrev pub patched_branch : Branch → Branch
  patched_branch (pc, k, old) = (
    pc,
    k,
    decode_bytes Endian.big
        (offset_bytes k (shifted r pc) (shifted r (branch_target pc (8 * k) old))),
  )

  -- Where a branch leads from its new place.
  abbrev pub lands : Branch → Branch
  lands (pc, k, off) = (pc, k, branch_target (place_after r pc) (8 * k) off)

  -- The new place of where a branch leads.
  abbrev pub meant : Branch → Branch
  meant (pc, k, off) = (pc, k, place_after r (branch_target pc (8 * k) off))

  -- What is read where the new bytes are.
  be_bytes-patch_from :
      (k skip pc : ℕ) (new code : List ℕ)
      → length new ≡ k
      → k ≤ length code
      → be_bytes k (patch_from r skip new pc code) 0 ≡ decode_bytes Endian.big new
  be_bytes-patch_from k skip pc new code e h = ap (decode_bytes Endian.big) (
      ap (λ (i : ℕ). take i (patch_from r skip new pc code)) (sym e)
      ∙ take-patch_from r skip new pc code (omega arith))

  length2 : (a b : ℕ) → length (offset_bytes 2 a b) ≡ 2
  unfolding to_le_bytes
  length2 a b = refl

  length4 : (a b : ℕ) → length (offset_bytes 4 a b) ≡ 4
  unfolding to_le_bytes
  length4 a b = refl

  branch_at-new_operands :
      (op pc skip : ℕ) (code : List ℕ)
      → branch_at op pc (patch_from r skip (new_operands r pc op code) (pc + 1) code)
        ≡ map patched_branch (branch_at op pc code)
  unfolding branch_at new_operands
  branch_at-new_operands op pc skip code = elim (Bool-cases (is_short_branch op)) [
    | inl short ↦ elim (Bool-cases (leb 2 (length code))) [
      | inl long ↦
          let new = patched_offset r pc 2 (be_bytes 2 code 0) in
          rw (short, long, length-patch_from r skip new (pc + 1) code, long)
            (ap (λ (x : ℕ). (pc, 2, x) ∷ [])
              (be_bytes-patch_from 2 skip (pc + 1) new code
                (length2 (shifted r pc) (shifted r (branch_target pc 16 (be_bytes 2 code 0))))
                (leb→le 2 (length code) long)))
      | inr cut ↦ rw (short, cut, length-patch_from r skip [] (pc + 1) code, cut) refl
    ]
    | inr other ↦ elim (Bool-cases (is_wide_branch op)) [
      | inl wide ↦ elim (Bool-cases (leb 4 (length code))) [
        | inl long ↦
            let new = patched_offset r pc 4 (be_bytes 4 code 0) in
            rw (other, wide, long, length-patch_from r skip new (pc + 1) code, long)
              (ap (λ (x : ℕ). (pc, 4, x) ∷ [])
                (be_bytes-patch_from 4 skip (pc + 1) new code
                  (length4 (shifted r pc) (shifted r (branch_target pc 32 (be_bytes 4 code 0))))
                  (leb→le 4 (length code) long)))
        | inr cut ↦ rw (other, wide, cut, length-patch_from r skip [] (pc + 1) code, cut) refl
      ]
      | inr plain ↦ rw (other, plain) refl
    ]
  ]

  length-new_operands :
      (op pc : ℕ) (code : List ℕ)
      → length (new_operands r pc op code) ≤ opcode_length op pc (op ∷ code) - 1
  unfolding new_operands
  length-new_operands op pc code = elim (Bool-cases (is_short_branch op)) [
    | inl short ↦ elim (Bool-cases (leb 2 (length code))) [
      | inl long ↦
          rw
            (
              short,
              long,
              length_short op pc (op ∷ code) short,
              length2 (shifted r pc) (shifted r (branch_target pc 16 (be_bytes 2 code 0))),
            )
            (omega arith)
      | inr cut ↦ rw (short, cut) (omega arith)
    ]
    | inr other ↦ elim (Bool-cases (is_wide_branch op)) [
      | inl wide ↦ elim (Bool-cases (leb 4 (length code))) [
        | inl long ↦
            rw
              (
                other,
                wide,
                long,
                length_wide op pc (op ∷ code) wide,
                length4 (shifted r pc) (shifted r (branch_target pc 32 (be_bytes 4 code 0))),
              )
              (omega arith)
        | inr cut ↦ rw (other, wide, cut) (omega arith)
      ]
      | inr plain ↦ rw (other, plain) (omega arith)
    ]
  ]

  -- The bytes of an instruction that is no switch tell its length before and after.
  opcode_length-patch_from :
      (op pc : ℕ) (code : List ℕ)
      → (op == 0xaa || op == 0xab) ≡ false
      → let len = opcode_length op pc (op ∷ code) in
        opcode_length op pc (op ∷ patch_from r (len - 1) (new_operands r pc op code) (pc + 1) code)
        ≡ len
  unfolding new_operands
  opcode_length-patch_from op pc code h =
      let len = opcode_length op pc (op ∷ code) in
      let code' = patch_from r (len - 1) (new_operands r pc op code) (pc + 1) code in
      elim (Bool-cases (is_short_branch op)) [
        | inl short ↦
            length_short op pc (op ∷ code') short ∙ sym (length_short op pc (op ∷ code) short)
        | inr other ↦ elim (Bool-cases (is_wide_branch op)) [
          | inl wide ↦
              length_wide op pc (op ∷ code') wide ∙ sym (length_wide op pc (op ∷ code) wide)
          | inr plain ↦ elim (Bool-cases (op == 0xc4)) [
            | inl prefix ↦
                let e : len - 1 ≡ suc (len - 2) =
                  omega (arith, length_prefix op pc (op ∷ code) prefix) in
                let none : new_operands r pc op code ≡ [] = rw (other, plain) refl in
                length_first op pc code code' h (
                  ap₂
                    (λ (skip : ℕ) (new : List ℕ). get_elem? (patch_from r skip new (pc + 1) code) 0)
                    e none
                  ∙ first-patch_from r (len - 2) (pc + 1) code)
            | inr single ↦ length_single op pc (op ∷ code') (op ∷ code) h single
          ]
        ]
      ]

  -- The walk over the patched code meets the same branches, with their new offsets.
  patched_branches :
      (skip : ℕ) (new : List ℕ) (pc : ℕ) (code : List ℕ)
      → length new ≤ skip
      → switch_from skip pc code ≡ false
      → branches_from skip pc (patch_from r skip new pc code)
        ≡ map patched_branch (branches_from skip pc code)
  unfolding branches_from patch_from switch_from
  patched_branches skip new pc [] fits h = refl
  patched_branches zero (b ∷ new) pc (op ∷ code) fits h = absurd (omega arith)
  patched_branches (suc skip) (b ∷ new) pc (op ∷ code) fits h =
      let e : suc skip - 1 ≡ skip = omega arith in
      rw e (patched_branches skip new (pc + 1) code (omega arith) h)
  patched_branches (suc skip) [] pc (op ∷ code) fits h =
      patched_branches skip [] (pc + 1) code (omega arith) h
  patched_branches zero [] pc (op ∷ code) fits h =
      let len = opcode_length op pc (op ∷ code) in
      let new = new_operands r pc op code in
      let plain : (op == 0xaa || op == 0xab) ≡ false = ground arith in
      let rest : switch_from (len - 1) (pc + 1) code ≡ false = rw plain at h in
      rw (opcode_length-patch_from op pc code plain) (
        ap₂ (λ (xs ys : List Branch). xs ++ ys) (branch_at-new_operands op pc (len - 1) code)
          (patched_branches (len - 1) new (pc + 1) code (length-new_operands op pc code) rest)
        ∙ sym (
            map-append patched_branch (branch_at op pc code)
              (branches_from (len - 1) (pc + 1) code)))

-- A place in the code, and an offset of two or of four bytes.
abbrev IsBranch : ℕ → Branch → Type 0
IsBranch n br = (br.0 < n) × ((br.1 ≡ 2) ⊎ (br.1 ≡ 4))

branch_at-IsBranch :
    (n op pc : ℕ) (code : List ℕ) → pc < n → All (IsBranch n) (branch_at op pc code)
unfolding branch_at
branch_at-IsBranch n op pc code h = elim (Bool-cases (is_short_branch op)) [
  | inl short ↦ elim (Bool-cases (leb 2 (length code))) [
    | inl long ↦ rw (short, long) ((h, inl refl), tt)
    | inr cut ↦ rw (short, cut) tt
  ]
  | inr other ↦ elim (Bool-cases (is_wide_branch op)) [
    | inl wide ↦ elim (Bool-cases (leb 4 (length code))) [
      | inl long ↦ rw (other, wide, long) ((h, inr refl), tt)
      | inr cut ↦ rw (other, wide, cut) tt
    ]
    | inr plain ↦ rw (other, plain) tt
  ]
]

branches_from-IsBranch :
    (n skip pc : ℕ) (code : List ℕ)
    → pc + length code ≤ n
    → All (IsBranch n) (branches_from skip pc code)
unfolding branches_from
branches_from-IsBranch n skip pc [] h = tt
branches_from-IsBranch n (suc skip) pc (op ∷ code) h =
    branches_from-IsBranch n skip (pc + 1) code (omega arith)
branches_from-IsBranch n zero pc (op ∷ code) h =
    All-append (IsBranch n) (branch_at op pc code)
      (branches_from (opcode_length op pc (op ∷ code) - 1) (pc + 1) code)
      (branch_at-IsBranch n op pc code (omega arith))
      (branches_from-IsBranch n (opcode_length op pc (op ∷ code) - 1) (pc + 1) code (omega arith))

module _ (r : Intervals) (n : ℕ) (plan : IsPlan 0 n r) (small : n < 2 ^ 31) where
  place_after-shifted : (a : ℕ) → a < n → place_after r a ≡ shifted r a
  place_after-shifted a h = omega (arith, shifted-count_below r n plan small a h)

  lands-meant :
      (br : Branch) → IsBranch n br → leads_to br < n → lands r (patched_branch r br) ≡ meant r br
  lands-meant (pc, k, off) (at, inl e) inside =
      let inside' : branch_target pc 16 off < n = rw e at inside in
      let closer = shifted-Closer r n plan small pc (branch_target pc 16 off) at inside' in
      rw (e, place_after-shifted pc at, place_after-shifted (branch_target pc 16 off) inside')
        (ap (λ (t : ℕ). (pc, 2, t))
          (short_lands pc (branch_target pc 16 off) (shifted r pc)
            (shifted r (branch_target pc 16 off)) (omega arith) (omega arith) closer off refl))
  lands-meant (pc, k, off) (at, inr e) inside =
      let inside' : branch_target pc 32 off < n = rw e at inside in
      let closer = shifted-Closer r n plan small pc (branch_target pc 32 off) at inside' in
      rw (e, place_after-shifted pc at, place_after-shifted (branch_target pc 32 off) inside')
        (ap (λ (t : ℕ). (pc, 4, t))
          (wide_lands pc (branch_target pc 32 off) (shifted r pc)
            (shifted r (branch_target pc 32 off)) (omega arith) (omega arith) closer off refl))

  branches_land :
      (brs : List Branch)
      → All (IsBranch n) brs
      → All (λ br. leads_to br < n) brs
      → map (lands r) (map (patched_branch r) brs) ≡ map (meant r) brs
  branches_land [] are inside = refl
  branches_land (br ∷ brs) are inside =
      ap₂ (λ (x : Branch) (xs : List Branch). x ∷ xs) (lands-meant br are.0 inside.0)
        (branches_land brs are.1 inside.1)

-- In code of less than 2^31 bytes that has no switch, whose branches all stay in the code, and for
-- dead ranges that ascend, do not overlap and stay in the code: a walk over the patched code meets
-- the branches that were there, at the same places; and each of them, from its place less the dead
-- bytes before it, leads to the place of its target less the dead bytes before that.
pub patch_code_branches-branches :
    (code : List ℕ) (r : Intervals)
    → IsPlan 0 (length code) r
    → length code < 2 ^ 31
    → switch_from 0 0 code ≡ false
    → All (λ br. leads_to br < length code) (branches code)
    → map (lands r) (branches (patch_code_branches code r)) ≡ map (meant r) (branches code)
unfolding branches patch_code_branches
patch_code_branches-branches code r plan small plain inside =
    ap (map (lands r)) (patched_branches r 0 [] 0 code (omega arith) plain)
    ∙ branches_land r (length code) plan small (branches code)
        (branches_from-IsBranch (length code) 0 0 code (omega arith)) inside
