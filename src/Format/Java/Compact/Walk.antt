-- ===== src/Format/Java/Compact/Walk.antt =====
-- src/format/java/bytecode.rs: the branches that a walk meets, and its bytes after the patch.
use trim.Prelude.{
  ℕ, zero, suc, ◌+◌, ◌-◌, ◌*◌, ◌≤◌, true, false, List, [], ◌∷◌, ◌++◌, leb, ◌==◌, ◌||◌, ◌≡◌, refl,
  ap, arith, if◌then◌else◌, length, take, get_elem?,
}
use trim.Patch.Relocs.{Intervals}
use trim.Format.Java.Classfile.{be_bytes}
use trim.Format.Java.Bytecode.{opcode_length, is_short_branch, is_wide_branch}
use trim.Format.Java.Compact.{branch_target, new_operands, patch_from, patch_code_branches}

-- A branch: its place, how many bytes its offset takes, and the offset.
abbrev pub Branch : Type 0
Branch = ℕ × ℕ × ℕ

abbrev pub leads_to : Branch → ℕ
leads_to (pc, k, old) = branch_target pc (8 * k) old

-- The branches that a walk over the code meets.
unfoldable pub branch_at : ℕ → ℕ → List ℕ → List Branch
branch_at op pc code =
    if is_short_branch op
    then (if leb 2 (length code) then (pc, 2, be_bytes 2 code 0) ∷ [] else [])
    else if is_wide_branch op
    then (if leb 4 (length code) then (pc, 4, be_bytes 4 code 0) ∷ [] else [])
    else []

unfoldable pub branches_from : ℕ → ℕ → List ℕ → List Branch
branches_from skip pc [] = []
branches_from (suc skip) pc (op ∷ code) = branches_from skip (pc + 1) code
branches_from zero pc (op ∷ code) =
    branch_at op pc code ++ branches_from (opcode_length op pc (op ∷ code) - 1) (pc + 1) code

unfoldable pub branches : List ℕ → List Branch
branches code = branches_from 0 0 code

pub length-patch_from :
    (r : Intervals) (skip : ℕ) (new : List ℕ) (pc : ℕ) (code : List ℕ)
    → length (patch_from r skip new pc code) ≡ length code
unfolding patch_from
length-patch_from r skip new pc [] = refl
length-patch_from r skip (b ∷ new) pc (op ∷ code) =
    ap suc (length-patch_from r (skip - 1) new (pc + 1) code)
length-patch_from r (suc skip) [] pc (op ∷ code) =
    ap suc (length-patch_from r skip [] (pc + 1) code)
length-patch_from r zero [] pc (op ∷ code) = ap suc (
    length-patch_from r (opcode_length op pc (op ∷ code) - 1) (new_operands r pc op code) (pc + 1)
      code)

pub length-patch_code_branches :
    (code : List ℕ) (r : Intervals) → length (patch_code_branches code r) ≡ length code
unfolding patch_code_branches
length-patch_code_branches code r = length-patch_from r 0 [] 0 code

-- The new bytes are the first ones.
pub take-patch_from :
    (r : Intervals) (skip : ℕ) (new : List ℕ) (pc : ℕ) (code : List ℕ)
    → length new ≤ length code
    → take (length new) (patch_from r skip new pc code) ≡ new
unfolding patch_from
take-patch_from r skip [] pc code h = refl
take-patch_from r skip (b ∷ new) pc [] h = absurd (omega arith)
take-patch_from r skip (b ∷ new) pc (op ∷ code) h =
    ap (λ (t : List ℕ). b ∷ t) (take-patch_from r (skip - 1) new (pc + 1) code (omega arith))

-- No byte of an operand changes where none is new.
pub first-patch_from :
    (r : Intervals) (skip pc : ℕ) (code : List ℕ)
    → get_elem? (patch_from r (suc skip) [] pc code) 0 ≡ get_elem? code 0
unfolding patch_from
first-patch_from r skip pc [] = refl
first-patch_from r skip pc (op ∷ code) = refl

pub length_short :
    (op pc : ℕ) (code : List ℕ) → is_short_branch op ≡ true → opcode_length op pc code ≡ 3
unfolding opcode_length
length_short op pc code h = ground arith

pub length_wide :
    (op pc : ℕ) (code : List ℕ) → is_wide_branch op ≡ true → opcode_length op pc code ≡ 5
unfolding opcode_length
length_wide op pc code h = ground arith

pub not_both : (op : ℕ) → is_wide_branch op ≡ true → is_short_branch op ≡ false
not_both op h = ground arith

-- Without a switch, the length depends on the opcode and the byte after it.
pub length_first :
    (op pc : ℕ) (code code' : List ℕ)
    → (op == 0xaa || op == 0xab) ≡ false
    → get_elem? code' 0 ≡ get_elem? code 0
    → opcode_length op pc (op ∷ code') ≡ opcode_length op pc (op ∷ code)
unfolding opcode_length
length_first op pc code code' h same = rw same (ground arith)

pub length_prefix : (op pc : ℕ) (code : List ℕ) → (op == 0xc4) ≡ true → 2 ≤ opcode_length op pc code
unfolding opcode_length
length_prefix op pc code h = ground arith

-- The length of most instructions depends on the opcode.
pub length_single :
    (op pc : ℕ) (code code' : List ℕ)
    → (op == 0xaa || op == 0xab) ≡ false
    → (op == 0xc4) ≡ false
    → opcode_length op pc code ≡ opcode_length op pc code'
unfolding opcode_length
length_single op pc code code' h k = ground arith
