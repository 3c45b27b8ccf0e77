-- ===== src/Arch/LoongArch.antt =====
-- src/arch/loongarch.rs and loongarch_patch.rs: LoongArch words, the addresses that they name, and
-- their patch.
pub mod Kinds
pub mod Retarget
use trim.Prelude.{
  ℕ, ◌+◌, ◌-◌, ◌*◌, ◌/◌, ◌%◌, ◌^◌, Bool, true, false, List, [], ◌∷◌, Option, none, some, leb, ltb,
  ◌==◌, ◌&&◌, ◌||◌, if◌then◌else◌, wrapping_add, wrapping_sub, u64_mod, u64_max,
}
use trim.Types.{Endian, FlowType, DecodedInstr, Section}
use trim.Types.Pointer.{from_le_bytes}
use trim.Patch.Relocs.{Intervals}
use trim.Arch.{
  field, shl, sar, sign_extend, page_of, section_bytes, decode_words, is_call, retarget,
  patch_word_at, patch_live,
}

-- `(targets, pc_rel, flow)`
abbrev pub Decoded : Type 0
Decoded = List ℕ × Option ℕ × FlowType

unfoldable pub i26_target : ℕ → ℕ → ℕ
i26_target addr w =
    wrapping_add addr (shl (sign_extend (field 0 10 w * 2 ^ 16 + field 10 16 w) 26) 2)

unfoldable pub i16_target : ℕ → ℕ → ℕ
i16_target addr w = wrapping_add addr (shl (sign_extend (field 10 16 w) 16) 2)

unfoldable pub i21_target : ℕ → ℕ → ℕ
i21_target addr w =
    wrapping_add addr (shl (sign_extend (field 0 5 w * 2 ^ 16 + field 10 16 w) 21) 2)

abbrev pub branch_to : FlowType → ℕ → Decoded
branch_to flow target = (target ∷ [], none, flow)

abbrev pub pc_rel_to : ℕ → Decoded
pc_rel_to target = ([], some target, FlowType.normal)

abbrev pub no_target : FlowType → Decoded
no_target flow = ([], none, flow)

unfoldable pub decode_jirl : ℕ → Decoded
decode_jirl w =
    if field 0 5 w == 0 && field 5 5 w == 1
    then no_target FlowType.return
    else if field 0 5 w == 1
    then no_target FlowType.indirect_call
    else no_target FlowType.indirect_branch

abbrev pub imm20 : ℕ → ℕ
imm20 w = sign_extend (field 5 20 w) 20

unfoldable pub decode_la_other : ℕ → ℕ → Decoded
decode_la_other addr w =
    if field 25 7 w == 0xe
    then pc_rel_to (wrapping_add addr (shl (imm20 w) 12))
    else if field 26 6 w == 0xd
    then pc_rel_to (wrapping_add addr (shl (imm20 w) 2))
    else if field 25 7 w == 0xd
    then pc_rel_to (wrapping_add (page_of addr) (shl (imm20 w) 12))
    else if w == 0x2a_0000 || field 15 17 w == 0x2a_8000 / 2 ^ 15
    then no_target FlowType.halt
    else no_target FlowType.normal

-- BEQ, BNE, BLT, BGE, BLTU and BGEU.
abbrev pub is_i16 : ℕ → Bool
is_i16 op6 = leb 0x16 op6 && leb op6 0x1b

-- BEQZ and BNEZ.
abbrev pub is_i21 : ℕ → Bool
is_i21 op6 = op6 == 0x10 || op6 == 0x11

unfoldable pub decode_la_word : ℕ → ℕ → Decoded
decode_la_word addr w =
    let op6 = field 26 6 w in
    if op6 == 0x14
    then branch_to FlowType.unconditional_branch (i26_target addr w)
    else if op6 == 0x15
    then branch_to FlowType.call (i26_target addr w)
    else if op6 == 0x13
    then decode_jirl w
    else if is_i16 op6
    then branch_to FlowType.conditional_branch (i16_target addr w)
    else if is_i21 op6
    then branch_to FlowType.conditional_branch (i21_target addr w)
    else decode_la_other addr w

abbrev pub la_instr : ℕ → List ℕ → DecodedInstr
la_instr addr raw =
    let d = decode_la_word addr (from_le_bytes raw) in
    record {
      addr = addr;
      raw = raw;
      len = 4;
      targets = d.0;
      pc_rel_target = d.1;
      is_call = is_call d.2;
      flow = d.2;
    }

unfoldable pub decode_text_loongarch : List ℕ → ℕ → ℕ → ℕ → List DecodedInstr
decode_text_loongarch bytes text_offset text_vaddr text_size =
    decode_words la_instr text_vaddr (section_bytes bytes text_offset text_size)

-- `(new_target - new_addr) >> 2`, the pattern of an `i64`.
abbrev pub new_imm : ℕ → ℕ → ℕ
new_imm new_addr new_target = sar (wrapping_sub new_target new_addr) 2

unfoldable pub with_i26 : ℕ → ℕ → ℕ → ℕ
with_i26 w new_addr new_target =
    let imm = new_imm new_addr new_target in
    field 26 6 w * 2 ^ 26 + field 0 16 imm * 2 ^ 10 + field 16 10 imm

-- `w & 0xFC00_03FF`
unfoldable pub with_i16 : ℕ → ℕ → ℕ → ℕ
with_i16 w new_addr new_target =
    field 26 6 w * 2 ^ 26 + field 0 16 (new_imm new_addr new_target) * 2 ^ 10 + field 0 10 w

-- `w & 0xFC00_03E0`
unfoldable pub with_i21 : ℕ → ℕ → ℕ → ℕ
with_i21 w new_addr new_target =
    let imm = new_imm new_addr new_target in
    field 26 6 w * 2 ^ 26 + field 0 16 imm * 2 ^ 10 + field 5 5 w * 2 ^ 5 + field 16 5 imm

-- `w & 0xFE00_001F`, with a new immediate of 20 bits.
abbrev pub with_imm20 : ℕ → ℕ → ℕ
with_imm20 w imm = field 25 7 w * 2 ^ 25 + field 0 20 imm * 2 ^ 5 + field 0 5 w

unfoldable pub patch_branch : Intervals → ℕ → ℕ → ℕ → ℕ → ℕ → Option ℕ
patch_branch r ts te addr target w =
    let op6 = field 26 6 w in
    if op6 == 0x14 || op6 == 0x15
    then retarget r ts te addr target (with_i26 w)
    else if is_i16 op6
    then retarget r ts te addr target (with_i16 w)
    else if is_i21 op6
    then retarget r ts te addr target (with_i21 w)
    else none

unfoldable pub patch_pc_rel : Intervals → ℕ → ℕ → ℕ → ℕ → ℕ → Option ℕ
patch_pc_rel r ts te addr pc_target w =
    if field 25 7 w == 0xe || field 25 7 w == 0xd
    then retarget r ts te addr pc_target
        (λ new_addr new_target. with_imm20 w (sar (wrapping_sub new_target (page_of new_addr)) 12))
    else if field 26 6 w == 0xd
    then retarget r ts te addr pc_target
        (λ new_addr new_target. with_imm20 w (sar (wrapping_sub new_target new_addr) 2))
    else none

-- A branch is patched by the first of its targets, any other word by its PC-relative target.
unfoldable pub patch_one :
    Intervals → List Section → ℕ → ℕ → DecodedInstr → List ℕ → Option (List ℕ)
patch_one r sections ts te instr bytes = elim instr.targets [
  | target ∷ _ ↦
      patch_word_at Endian.little (patch_branch r ts te instr.addr target) sections instr bytes
  | [] ↦ elim instr.pc_rel_target [
    | none ↦ some bytes
    | some pc_target ↦
        patch_word_at Endian.little (patch_pc_rel r ts te instr.addr pc_target) sections instr bytes
  ]
]

unfoldable pub patch_branches :
    Intervals → List Section → ℕ → ℕ → List DecodedInstr → List ℕ → Option (List ℕ)
patch_branches r sections ts te instrs bytes =
    patch_live (patch_one r sections ts te) r instrs bytes
