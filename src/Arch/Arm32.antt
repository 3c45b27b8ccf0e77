-- ===== src/Arch/Arm32.antt =====
-- src/arch/arm32.rs and arm32_patch.rs: A32 words, the addresses that they name, and their patch.
pub mod Retarget
use trim.Prelude.{
  ℕ, ◌+◌, ◌-◌, ◌*◌, ◌/◌, ◌%◌, ◌^◌, Bool, true, false, not, List, [], ◌∷◌, Option, none, some, leb,
  ltb, ◌==◌, ◌&&◌, ◌||◌, if◌then◌else◌, wrapping_add, wrapping_sub, u64_mod, u64_max,
}
use trim.Types.{Endian, FlowType, DecodedInstr, Section}
use trim.Types.Pointer.{from_le_bytes}
use trim.Patch.Relocs.{Intervals}
use trim.Arch.{
  field, shl, sar, sign_extend, section_bytes, decode_words, is_call, retarget, patch_word_at,
  patch_live,
}

-- `(targets, pc_rel, flow)`
abbrev pub Decoded : Type 0
Decoded = List ℕ × Option ℕ × FlowType

-- `addr + 8 + offset`; the offset is even, so `| h << 1` adds `2 * h`.
unfoldable pub blx_target : ℕ → ℕ → ℕ
blx_target addr w =
    wrapping_add (wrapping_add addr 8)
      (wrapping_add (shl (sign_extend (field 0 24 w) 24) 2) (field 24 1 w * 2))

unfoldable pub b_target : ℕ → ℕ → ℕ
b_target addr w = wrapping_add (wrapping_add addr 8) (shl (sign_extend (field 0 24 w) 24) 2)

-- `w & 0xFE00_0000 == 0xFA00_0000`
abbrev pub is_blx : ℕ → Bool
is_blx w = field 25 7 w == 0x7d

-- `((w >> 25) & 7) == 0b101 && cond != 0xF`
abbrev pub is_b_bl : ℕ → Bool
is_b_bl w = field 25 3 w == 5 && not (field 28 4 w == 0xf)

unfoldable pub decode_arm32_b_bl : ℕ → ℕ → Decoded
decode_arm32_b_bl addr w =
    if is_b_bl w
    then (
      b_target addr w ∷ [],
      none,
      if field 24 1 w == 1
          then FlowType.call
          else if field 28 4 w == 0xe
          then FlowType.unconditional_branch
          else FlowType.conditional_branch,
    )
    else ([], none, FlowType.normal)

-- `w & 0x0FFF_FFF0 == 0x012F_FF10` is a branch to a register.
unfoldable pub decode_arm32_word : ℕ → ℕ → Decoded
decode_arm32_word addr w =
    if is_blx w
    then (blx_target addr w ∷ [], none, FlowType.call)
    else if field 4 24 w == 0x012f_ff10 / 2 ^ 4
    then (if field 0 4 w == 14
        then ([], none, FlowType.return)
        else ([], none, FlowType.indirect_branch))
    else decode_arm32_b_bl addr w

abbrev pub arm32_instr : ℕ → List ℕ → DecodedInstr
arm32_instr addr raw =
    let d = decode_arm32_word addr (from_le_bytes raw) in
    record {
      addr = addr;
      raw = raw;
      len = 4;
      targets = d.0;
      pc_rel_target = d.1;
      is_call = is_call d.2;
      flow = d.2;
    }

unfoldable pub decode_text_arm32 : List ℕ → ℕ → ℕ → ℕ → List DecodedInstr
decode_text_arm32 bytes text_offset text_vaddr text_size =
    decode_words arm32_instr text_vaddr (section_bytes bytes text_offset text_size)

-- `new_target - new_addr - 8`, the pattern of an `i64`.
abbrev pub new_offset : ℕ → ℕ → ℕ
new_offset new_addr new_target = wrapping_sub (wrapping_sub new_target new_addr) 8

unfoldable pub with_blx : ℕ → ℕ → ℕ → ℕ
with_blx w new_addr new_target =
    let offset = new_offset new_addr new_target in
    field 25 7 w * 2 ^ 25 + sar offset 1 % 2 * 2 ^ 24 + sar offset 2 % 2 ^ 24

unfoldable pub with_imm24 : ℕ → ℕ → ℕ → ℕ
with_imm24 w new_addr new_target =
    field 24 8 w * 2 ^ 24 + sar (new_offset new_addr new_target) 2 % 2 ^ 24

-- The new word of `patch_one`, if it writes one.
unfoldable pub patch_word : Intervals → ℕ → ℕ → ℕ → ℕ → Option ℕ
patch_word r ts te addr w =
    if is_blx w
    then retarget r ts te addr (blx_target addr w) (with_blx w)
    else if is_b_bl w
    then retarget r ts te addr (b_target addr w) (with_imm24 w)
    else none

abbrev pub patch_one : Intervals → List Section → ℕ → ℕ → DecodedInstr → List ℕ → Option (List ℕ)
patch_one r sections ts te instr bytes =
    patch_word_at Endian.little (patch_word r ts te instr.addr) sections instr bytes

unfoldable pub patch_branches :
    Intervals → List Section → ℕ → ℕ → List DecodedInstr → List ℕ → Option (List ℕ)
patch_branches r sections ts te instrs bytes =
    patch_live (patch_one r sections ts te) r instrs bytes
