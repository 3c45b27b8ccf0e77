-- ===== src/Arch/Mips.antt =====
-- src/arch/mips.rs and mips_patch.rs: MIPS words, the addresses that they name, and their patch.
pub mod Retarget
use trim.Prelude.{
  ℕ, ◌+◌, ◌-◌, ◌*◌, ◌/◌, ◌%◌, ◌^◌, Bool, true, false, not, List, [], ◌∷◌, Option, none, some, leb,
  ltb, ◌==◌, ◌&&◌, ◌||◌, if◌then◌else◌, wrapping_add, wrapping_sub, u64_mod, u64_max,
}
use trim.Types.{Endian, FlowType, DecodedInstr, Section}
use trim.Types.Pointer.{decode_bytes}
use trim.Patch.Relocs.{Intervals, total_shift}
use trim.Arch.{
  field, shl, sar, sign_extend, section_bytes, decode_words, is_call, moved, patch_word_at,
  patch_live,
}

-- `(targets, flow)`
abbrev pub Decoded : Type 0
Decoded = List ℕ × FlowType

-- `(addr & 0xFFFF_FFFF_F000_0000) | (index << 2)`
unfoldable pub j_target : ℕ → ℕ → ℕ
j_target addr w = addr / 2 ^ 28 * 2 ^ 28 + field 0 26 w * 4

unfoldable pub branch_target : ℕ → ℕ → ℕ
branch_target addr w = wrapping_add (wrapping_add addr 4) (shl (sign_extend (field 0 16 w) 16) 2)

unfoldable pub decode_special : ℕ → Decoded
decode_special w =
    let funct = field 0 6 w in
    if funct == 8
    then (if field 21 5 w == 31 then ([], FlowType.return) else ([], FlowType.indirect_branch))
    else if funct == 9
    then ([], FlowType.indirect_call)
    else if funct == 0xc || funct == 0xd
    then ([], FlowType.halt)
    else ([], FlowType.normal)

unfoldable pub decode_regimm : ℕ → ℕ → Decoded
decode_regimm addr w =
    if field 16 5 w == 0 || field 16 5 w == 1
    then (branch_target addr w ∷ [], FlowType.conditional_branch)
    else ([], FlowType.normal)

unfoldable pub decode_mips_word : ℕ → ℕ → Decoded
decode_mips_word addr w =
    let op = field 26 6 w in
    if op == 2
    then (j_target addr w ∷ [], FlowType.unconditional_branch)
    else if op == 3
    then (j_target addr w ∷ [], FlowType.call)
    else if op == 0
    then decode_special w
    else if op == 1
    then decode_regimm addr w
    else if leb 4 op && leb op 7
    then (branch_target addr w ∷ [], FlowType.conditional_branch)
    else ([], FlowType.normal)

abbrev pub endian_of : Bool → Endian
endian_of big_endian = if big_endian then Endian.big else Endian.little

abbrev pub mips_instr : Bool → ℕ → List ℕ → DecodedInstr
mips_instr big_endian addr raw =
    let d = decode_mips_word addr (decode_bytes (endian_of big_endian) raw) in
    record {
      addr = addr;
      raw = raw;
      len = 4;
      targets = d.0;
      pc_rel_target = none;
      is_call = is_call d.1;
      flow = d.1;
    }

unfoldable pub decode_text_mips : List ℕ → ℕ → ℕ → ℕ → Bool → List DecodedInstr
decode_text_mips bytes text_offset text_vaddr text_size big_endian =
    decode_words (mips_instr big_endian) text_vaddr (section_bytes bytes text_offset text_size)

-- J and JAL hold an absolute target.
unfoldable pub target_moved : ℕ → ℕ → ℕ → Bool
target_moved op shift_src shift_tgt =
    if op == 2 || op == 3 then not (shift_tgt == 0) else not (shift_src == shift_tgt)

unfoldable pub with_index : ℕ → ℕ → ℕ
with_index w new_target = field 26 6 w * 2 ^ 26 + field 2 26 new_target

-- The low 16 bits of `(new_target - new_addr - 4) >> 2`.
unfoldable pub with_imm16 : ℕ → ℕ → ℕ → ℕ
with_imm16 w new_addr new_target =
    let new_offset = wrapping_sub (wrapping_sub new_target new_addr) 4 in
    field 16 16 w * 2 ^ 16 + sar new_offset 2 % 2 ^ 16

-- The new word of `patch_one`, if it writes one; `target` is the first of the decoded targets.
unfoldable pub patch_word : Intervals → ℕ → ℕ → ℕ → ℕ → ℕ → Option ℕ
patch_word r ts te addr target w =
    let op = field 26 6 w in
    if target_moved op (total_shift addr r ts te) (total_shift target r ts te)
    then (if op == 2 || op == 3
        then some (with_index w (moved r ts te target))
        else if (leb 4 op && leb op 7) || op == 1
        then some (with_imm16 w (moved r ts te addr) (moved r ts te target))
        else none)
    else none

unfoldable pub patch_one :
    Intervals → List Section → ℕ → ℕ → Bool → DecodedInstr → List ℕ → Option (List ℕ)
patch_one r sections ts te big_endian instr bytes = elim instr.targets [
  | [] ↦ some bytes
  | target ∷ _ ↦
      patch_word_at (endian_of big_endian) (patch_word r ts te instr.addr target) sections instr
        bytes
]

unfoldable pub patch_branches :
    Intervals → List Section → ℕ → ℕ → Bool → List DecodedInstr → List ℕ → Option (List ℕ)
patch_branches r sections ts te big_endian instrs bytes =
    patch_live (patch_one r sections ts te big_endian) r instrs bytes
