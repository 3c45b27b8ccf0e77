-- ===== src/Arch/Aarch64.antt =====
-- src/arch/aarch64.rs and aarch64_patch.rs: A64 words, the addresses that they name, and their patch.
-- A mask that picks a field is `field`, and fields that do not overlap are joined by `+`.
pub mod Kinds
pub mod Retarget
use trim.Prelude.{
  ℕ, ◌+◌, ◌-◌, ◌*◌, ◌/◌, ◌%◌, ◌^◌, Bool, true, false, List, [], ◌∷◌, ◌++◌, Option, none, some, leb,
  ltb, ◌==◌, ◌&&◌, ◌||◌, if◌then◌else◌, wrapping_add, wrapping_sub, u64_mod, u64_max, nat_eq,
}
use trim.Prelude.Sets.{contains}
use trim.Types.{Endian, FlowType, DecodedInstr, Section}
use trim.Types.Pointer.{from_le_bytes}
use trim.Patch.Relocs.{Intervals}
use trim.Arch.{
  field, shl, sar, sign_extend, page_of, section_bytes, decode_words, is_call, retarget,
  patch_word_at, patch_live,
}

pub record A64Decoded : Type 0 where
  pub targets : List ℕ
  pub pc_rel : Option ℕ
  pub flow : FlowType

unfoldable pub branch26_target : ℕ → ℕ → ℕ
branch26_target addr w = wrapping_add addr (shl (sign_extend (field 0 26 w) 26) 2)

unfoldable pub branch19_target : ℕ → ℕ → ℕ
branch19_target addr w = wrapping_add addr (shl (sign_extend (field 5 19 w) 19) 2)

unfoldable pub branch14_target : ℕ → ℕ → ℕ
branch14_target addr w = wrapping_add addr (shl (sign_extend (field 5 14 w) 14) 2)

abbrev pub imm21 : ℕ → ℕ
imm21 w = field 5 19 w * 4 + field 29 2 w

unfoldable pub adrp_target : ℕ → ℕ → ℕ
adrp_target addr w = wrapping_add (page_of addr) (shl (sign_extend (imm21 w) 21) 12)

unfoldable pub adr_target : ℕ → ℕ → ℕ
adr_target addr w = wrapping_add addr (sign_extend (imm21 w) 21)

-- `w & 0xFF00_0010 == 0x5400_0000`
abbrev pub is_b_cond : ℕ → Bool
is_b_cond w = field 24 8 w == 0x54 && field 4 1 w == 0

-- `w & 0x7E00_0000 == 0x3400_0000`
abbrev pub is_cbz : ℕ → Bool
is_cbz w = field 25 6 w == 0x1a

-- `w & 0x7E00_0000 == 0x3600_0000`
abbrev pub is_tbz : ℕ → Bool
is_tbz w = field 25 6 w == 0x1b

-- `w & 0x9F00_0000 == 0x9000_0000`
abbrev pub is_adrp : ℕ → Bool
is_adrp w = field 31 1 w == 1 && field 24 5 w == 0x10

-- `w & 0x9F00_0000 == 0x1000_0000`
abbrev pub is_adr : ℕ → Bool
is_adr w = field 31 1 w == 0 && field 24 5 w == 0x10

-- `w & 0x3B00_0000 == 0x1800_0000`
abbrev pub is_ldr_literal : ℕ → Bool
is_ldr_literal w = field 27 3 w == 3 && field 24 2 w == 0

abbrev pub no_target : FlowType → A64Decoded
no_target flow = record { targets = []; pc_rel = none; flow = flow }

abbrev pub branch_to : FlowType → ℕ → A64Decoded
branch_to flow target = record { targets = target ∷ []; pc_rel = none; flow = flow }

-- A PC-relative reference is put among the targets too, at the end of `decode_a64_word`.
abbrev pub pc_rel_to : ℕ → A64Decoded
pc_rel_to target = record { targets = target ∷ []; pc_rel = some target; flow = FlowType.normal }

unfoldable pub decode_a64_pcrel : ℕ → ℕ → A64Decoded
decode_a64_pcrel addr w =
    if is_adrp w
    then pc_rel_to (adrp_target addr w)
    else if is_adr w
    then pc_rel_to (adr_target addr w)
    else if is_ldr_literal w
    then pc_rel_to (branch19_target addr w)
    else no_target FlowType.normal

unfoldable pub decode_a64_branches : ℕ → ℕ → A64Decoded
decode_a64_branches addr w =
    if is_b_cond w
    then branch_to FlowType.conditional_branch (branch19_target addr w)
    else if is_cbz w
    then branch_to FlowType.conditional_branch (branch19_target addr w)
    else if is_tbz w
    then branch_to FlowType.conditional_branch (branch14_target addr w)
    else decode_a64_pcrel addr w

-- `w & 0xFFFF_FC1F` is compared by the fields that the mask keeps.
unfoldable pub decode_a64_other : ℕ → ℕ → A64Decoded
decode_a64_other addr w =
    let register_branch = field 0 5 w == 0 in
    let opcode = field 10 22 w in
    if register_branch && opcode == 0xd65f_0000 / 2 ^ 10
    then no_target FlowType.return
    else if register_branch && opcode == 0xd61f_0000 / 2 ^ 10
    then no_target FlowType.indirect_branch
    else if register_branch && opcode == 0xd63f_0000 / 2 ^ 10
    then no_target FlowType.indirect_call
    else if field 21 11 w == 0xd420_0000 / 2 ^ 21
    then no_target FlowType.halt
    else decode_a64_branches addr w

unfoldable pub decode_a64_word : ℕ → ℕ → A64Decoded
decode_a64_word addr w =
    if field 26 6 w == 5
    then branch_to FlowType.unconditional_branch (branch26_target addr w)
    else if field 26 6 w == 0x25
    then branch_to FlowType.call (branch26_target addr w)
    else decode_a64_other addr w

abbrev pub a64_instr : ℕ → List ℕ → DecodedInstr
a64_instr addr raw =
    let d = decode_a64_word addr (from_le_bytes raw) in
    record {
      addr = addr;
      raw = raw;
      len = 4;
      targets = d.targets;
      pc_rel_target = d.pc_rel;
      is_call = is_call d.flow;
      flow = d.flow;
    }

unfoldable pub decode_text_aarch64 : List ℕ → ℕ → ℕ → ℕ → List DecodedInstr
decode_text_aarch64 bytes text_offset text_vaddr text_size =
    decode_words a64_instr text_vaddr (section_bytes bytes text_offset text_size)

-- The new words. `new_offset` is `new_target - new_addr`, the pattern of an `i64`.
unfoldable pub with_imm26 : ℕ → ℕ → ℕ → ℕ
with_imm26 w new_addr new_target =
    let new_imm26 = sar (wrapping_sub new_target new_addr) 2 in
    field 26 6 w * 2 ^ 26 + new_imm26 % 2 ^ 26

-- `w & 0xFF00_001F`
unfoldable pub with_imm19 : ℕ → ℕ → ℕ → ℕ
with_imm19 w new_addr new_target =
    let new_imm19 = sar (wrapping_sub new_target new_addr) 2 in
    field 24 8 w * 2 ^ 24 + new_imm19 % 2 ^ 19 * 2 ^ 5 + field 0 5 w

-- `w & 0xFFF8_001F`
unfoldable pub with_imm14 : ℕ → ℕ → ℕ → ℕ
with_imm14 w new_addr new_target =
    let new_imm14 = sar (wrapping_sub new_target new_addr) 2 in
    field 19 13 w * 2 ^ 19 + new_imm14 % 2 ^ 14 * 2 ^ 5 + field 0 5 w

-- `w & 0x9F00_001F`, with the immediate's two parts.
abbrev pub with_imm21 : ℕ → ℕ → ℕ
with_imm21 w new_imm =
    field 31 1 w * 2 ^ 31
    + field 0 2 new_imm * 2 ^ 29
    + field 24 5 w * 2 ^ 24
    + field 2 19 new_imm * 2 ^ 5
    + field 0 5 w

unfoldable pub with_page : ℕ → ℕ → ℕ → ℕ
with_page w new_addr new_target = with_imm21 w (sar (wrapping_sub new_target (page_of new_addr)) 12)

unfoldable pub with_adr : ℕ → ℕ → ℕ → ℕ
with_adr w new_addr new_target = with_imm21 w (wrapping_sub new_target new_addr)

-- The new word of `patch_one`, if it writes one.
unfoldable pub patch_word : Intervals → ℕ → ℕ → ℕ → ℕ → Option ℕ
patch_word r ts te addr w =
    if field 26 6 w == 5 || field 26 6 w == 0x25
    then retarget r ts te addr (branch26_target addr w) (with_imm26 w)
    else if is_b_cond w || is_cbz w
    then retarget r ts te addr (branch19_target addr w) (with_imm19 w)
    else if is_tbz w
    then retarget r ts te addr (branch14_target addr w) (with_imm14 w)
    else if is_adrp w
    then retarget r ts te addr (adrp_target addr w) (with_page w)
    else if is_adr w
    then retarget r ts te addr (adr_target addr w) (with_adr w)
    else none

abbrev pub patch_one : Intervals → List Section → ℕ → ℕ → DecodedInstr → List ℕ → Option (List ℕ)
patch_one r sections ts te instr bytes =
    patch_word_at Endian.little (patch_word r ts te instr.addr) sections instr bytes

unfoldable pub patch_branches :
    Intervals → List Section → ℕ → ℕ → List DecodedInstr → List ℕ → Option (List ℕ)
patch_branches r sections ts te instrs bytes =
    patch_live (patch_one r sections ts te) r instrs bytes
