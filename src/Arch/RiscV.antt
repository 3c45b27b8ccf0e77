-- ===== src/Arch/RiscV.antt =====
-- src/arch/riscv.rs and riscv_patch.rs: the immediates of the RISC-V instructions that branch, the
-- decoder, and the patch of branches. `Auipc` has the pairs of instructions with one address.
pub mod Auipc
pub mod Immediates
pub mod Kinds
pub mod Retarget
pub mod Patching
use trim.Prelude.{
  ℕ, zero, suc, ◌+◌, ◌-◌, ◌*◌, ◌/◌, ◌%◌, ◌^◌, Bool, true, false, not, List, [], ◌∷◌, Option, none,
  some, leb, ltb, ◌==◌, ◌&&◌, ◌||◌, if◌then◌else◌, wrapping_add, wrapping_sub, u64_mod, length,
  take, drop,
}
use trim.Types.{FlowType, DecodedInstr}
use trim.Types.Pointer.{from_le_bytes, to_le_bytes}
use trim.Patch.Relocs.{Intervals}
use trim.Arch.{field, sign_extend, section_bytes, is_call, retarget}

-- `(targets, pc_rel, flow)`
abbrev pub Decoded : Type 0
Decoded = List ℕ × Option ℕ × FlowType

unfoldable pub jal_imm : ℕ → ℕ
jal_imm w =
    sign_extend
      (field 31 1 w * 2 ^ 20 + field 12 8 w * 2 ^ 12 + field 20 1 w * 2 ^ 11 + field 21 10 w * 2) 21

unfoldable pub branch_imm : ℕ → ℕ
branch_imm w =
    sign_extend
      (field 31 1 w * 2 ^ 12 + field 7 1 w * 2 ^ 11 + field 25 6 w * 2 ^ 5 + field 8 4 w * 2) 13

-- The eleven bits from bit 2 on.
unfoldable pub c_j_imm : ℕ → ℕ
c_j_imm hw =
    let bits = field 2 11 hw in
    sign_extend
      (field 10 1 bits * 2 ^ 11
        + field 6 1 bits * 2 ^ 10
        + field 7 2 bits * 2 ^ 8
        + field 4 1 bits * 2 ^ 7
        + field 5 1 bits * 2 ^ 6
        + field 0 1 bits * 2 ^ 5
        + field 9 1 bits * 2 ^ 4
        + field 1 3 bits * 2)
      12

unfoldable pub c_branch_imm : ℕ → ℕ
c_branch_imm hw =
    let lo = field 2 5 hw in
    let hi = field 10 3 hw in
    sign_extend
      (field 2 1 hi * 2 ^ 8
        + field 3 2 lo * 2 ^ 6
        + field 0 1 lo * 2 ^ 5
        + field 0 2 hi * 2 ^ 3
        + field 1 2 lo * 2)
      9

-- The encoders take the pattern of an `i32`, or of the `i64` that it was cut from.
unfoldable pub encode_jal_imm : ℕ → ℕ
encode_jal_imm imm =
    field 20 1 imm * 2 ^ 31
    + field 1 10 imm * 2 ^ 21
    + field 11 1 imm * 2 ^ 20
    + field 12 8 imm * 2 ^ 12

unfoldable pub encode_branch_imm : ℕ → ℕ
encode_branch_imm imm =
    field 12 1 imm * 2 ^ 31
    + field 5 6 imm * 2 ^ 25
    + field 1 4 imm * 2 ^ 8
    + field 11 1 imm * 2 ^ 7

unfoldable pub encode_c_j_imm : ℕ → ℕ
encode_c_j_imm imm =
    (field 5 1 imm
      + field 1 3 imm * 2
      + field 7 1 imm * 2 ^ 4
      + field 6 1 imm * 2 ^ 5
      + field 10 1 imm * 2 ^ 6
      + field 8 2 imm * 2 ^ 7
      + field 4 1 imm * 2 ^ 9
      + field 11 1 imm * 2 ^ 10)
    * 2 ^ 2

unfoldable pub encode_c_branch_imm : ℕ → ℕ
encode_c_branch_imm imm =
    (field 3 2 imm + field 8 1 imm * 2 ^ 2) * 2 ^ 10
    + (field 5 1 imm + field 1 2 imm * 2 + field 6 2 imm * 2 ^ 3) * 2 ^ 2

unfoldable pub jal_target : ℕ → ℕ → ℕ
jal_target addr w = wrapping_add addr (jal_imm w)

unfoldable pub branch_target : ℕ → ℕ → ℕ
branch_target addr w = wrapping_add addr (branch_imm w)

unfoldable pub c_j_target : ℕ → ℕ → ℕ
c_j_target addr hw = wrapping_add addr (c_j_imm hw)

unfoldable pub c_branch_target : ℕ → ℕ → ℕ
c_branch_target addr hw = wrapping_add addr (c_branch_imm hw)

abbrev pub branch_to : FlowType → ℕ → Decoded
branch_to flow target = (target ∷ [], none, flow)

abbrev pub no_target : FlowType → Decoded
no_target flow = ([], none, flow)

-- The registers that a call links by.
abbrev pub is_link : ℕ → Bool
is_link rd = rd == 1 || rd == 5

abbrev pub jal_flow : ℕ → FlowType
jal_flow w = if is_link (field 7 5 w) then FlowType.call else FlowType.unconditional_branch

unfoldable pub decode_jalr : ℕ → Decoded
decode_jalr w =
    if field 7 5 w == 0 && field 15 5 w == 1
    then no_target FlowType.return
    else if is_link (field 7 5 w)
    then no_target FlowType.indirect_call
    else no_target FlowType.indirect_branch

unfoldable pub decode_auipc : ℕ → ℕ → Decoded
decode_auipc addr w =
    ([], some (wrapping_add addr (sign_extend (field 12 20 w * 2 ^ 12) 32)), FlowType.normal)

unfoldable pub decode_system : ℕ → Decoded
decode_system w =
    if field 20 12 w == 0 || field 20 12 w == 1
    then no_target FlowType.halt
    else no_target FlowType.normal

-- The match of `decode_rv_word` on the opcode.
unfoldable pub decode_rv_word : ℕ → ℕ → Decoded
decode_rv_word addr w =
    let opcode = field 0 7 w in
    if opcode == 0x6f
    then branch_to (jal_flow w) (jal_target addr w)
    else if opcode == 0x67
    then decode_jalr w
    else if opcode == 0x63
    then branch_to FlowType.conditional_branch (branch_target addr w)
    else if opcode == 0x17
    then decode_auipc addr w
    else if opcode == 0x73
    then decode_system w
    else no_target FlowType.normal

unfoldable pub decode_c_jr_jalr : ℕ → Decoded
decode_c_jr_jalr hw =
    let rs1 = field 7 5 hw in
    if not (field 2 5 hw == 0) || rs1 == 0
    then no_target FlowType.normal
    else if field 12 1 hw == 0
    then (if rs1 == 1 then no_target FlowType.return else no_target FlowType.indirect_branch)
    else no_target FlowType.indirect_call

-- The match of `decode_compressed` on the quadrant and `funct3`.
unfoldable pub decode_compressed : ℕ → ℕ → Decoded
decode_compressed addr hw =
    let op = field 0 2 hw in
    let funct3 = field 13 3 hw in
    if op == 1 && funct3 == 5
    then branch_to FlowType.unconditional_branch (c_j_target addr hw)
    else if op == 1 && funct3 == 1
    then branch_to FlowType.call (c_j_target addr hw)
    else if op == 1 && (funct3 == 6 || funct3 == 7)
    then branch_to FlowType.conditional_branch (c_branch_target addr hw)
    else if op == 2 && funct3 == 4
    then decode_c_jr_jalr hw
    else no_target FlowType.normal

abbrev pub rv_instr : ℕ → ℕ → ℕ → Decoded → DecodedInstr
rv_instr addr n w d = record {
  addr = addr;
  raw = to_le_bytes n w;
  len = n;
  targets = d.0;
  pc_rel_target = d.1;
  is_call = is_call d.2;
  flow = d.2;
}

-- The loop of the decoder: the low two bits of the first byte tell a half word from a word.
unfoldable pub decode_from : ℕ → ℕ → List ℕ → List DecodedInstr
decode_from zero addr bytes = []
decode_from (suc fuel) addr [] = []
decode_from (suc fuel) addr (a ∷ []) = []
decode_from (suc fuel) addr (a ∷ b ∷ rest) =
    let hw = from_le_bytes (a ∷ b ∷ []) in
    let w = from_le_bytes (take 4 (a ∷ b ∷ rest)) in
    elim (field 0 2 a == 3) [
      | false ↦
          rv_instr addr 2 hw (decode_compressed addr hw)
          ∷ decode_from fuel (wrapping_add addr 2) rest
      | true ↦ elim (leb 2 (length rest)) [
        | false ↦ []
        | true ↦
            rv_instr addr 4 w (decode_rv_word addr w)
            ∷ decode_from fuel (wrapping_add addr 4) (drop 2 rest)
      ]
    ]

unfoldable pub decode_text_riscv : List ℕ → ℕ → ℕ → ℕ → List DecodedInstr
decode_text_riscv bytes text_offset text_vaddr text_size =
    let slice = section_bytes bytes text_offset text_size in
    decode_from (length slice) text_vaddr slice

-- The new words. The low 12 bits of JAL stay, and all but the immediate of the others.
unfoldable pub with_jal : ℕ → ℕ → ℕ → ℕ
with_jal w new_addr new_target = field 0 12 w + encode_jal_imm (wrapping_sub new_target new_addr)

-- `w & 0x01FFF07F`
unfoldable pub with_branch : ℕ → ℕ → ℕ → ℕ
with_branch w new_addr new_target =
    field 12 13 w * 2 ^ 12 + field 0 7 w + encode_branch_imm (wrapping_sub new_target new_addr)

-- `hw & 0xE003`
unfoldable pub with_c_j : ℕ → ℕ → ℕ → ℕ
with_c_j hw new_addr new_target =
    field 13 3 hw * 2 ^ 13 + field 0 2 hw + encode_c_j_imm (wrapping_sub new_target new_addr)

-- `hw & 0xE383`
unfoldable pub with_c_branch : ℕ → ℕ → ℕ → ℕ
with_c_branch hw new_addr new_target =
    field 13 3 hw * 2 ^ 13
    + field 7 3 hw * 2 ^ 7
    + field 0 2 hw
    + encode_c_branch_imm (wrapping_sub new_target new_addr)

-- The new word of `patch_one_32`, if it writes one.
unfoldable pub patch_word : Intervals → ℕ → ℕ → ℕ → ℕ → Option ℕ
patch_word r ts te addr w =
    if field 0 7 w == 0x6f
    then retarget r ts te addr (jal_target addr w) (with_jal w)
    else if field 0 7 w == 0x63
    then retarget r ts te addr (branch_target addr w) (with_branch w)
    else none

-- The new half word of `patch_one_16`, if it writes one.
unfoldable pub patch_half : Intervals → ℕ → ℕ → ℕ → ℕ → Option ℕ
patch_half r ts te addr hw =
    let op = field 0 2 hw in
    let funct3 = field 13 3 hw in
    if op == 1 && (funct3 == 5 || funct3 == 1)
    then retarget r ts te addr (c_j_target addr hw) (with_c_j hw)
    else if op == 1 && (funct3 == 6 || funct3 == 7)
    then retarget r ts te addr (c_branch_target addr hw) (with_c_branch hw)
    else none
