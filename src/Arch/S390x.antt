-- ===== src/Arch/S390x.antt =====
-- src/arch/s390x.rs and s390x_patch.rs: instructions of 2, 4 or 6 bytes, the addresses that they
-- name, and their patch.
pub mod Retarget
use trim.Prelude.{
  ℕ, zero, suc, ◌+◌, ◌-◌, ◌*◌, ◌/◌, ◌%◌, ◌^◌, Bool, true, false, not, List, [], ◌∷◌, ◌++◌, Option,
  none, some, leb, ltb, ◌==◌, ◌&&◌, ◌||◌, if◌then◌else◌, wrapping_add, wrapping_sub, u64_mod,
  u64_max, length, take, drop,
}
use trim.Types.{Endian, FlowType, DecodedInstr, Section, vaddr_to_offset}
use trim.Types.Pointer.{splice, decode_bytes, encode_bytes}
use trim.Patch.Relocs.{Intervals, total_shift}
use trim.Arch.{field, shl, sign_extend, section_bytes, is_call, moved, patch_live}

-- `(targets, flow)`
abbrev pub Decoded : Type 0
Decoded = List ℕ × FlowType

unfoldable pub instr_len : ℕ → ℕ
instr_len first_byte =
    if first_byte / 2 ^ 6 == 0 then 2 else if first_byte / 2 ^ 6 == 3 then 6 else 4

-- `addr + imm * 2`, for an immediate of `bits` bits.
abbrev pub halfword_target : ℕ → ℕ → ℕ → ℕ
halfword_target addr bits imm = wrapping_add addr (shl (sign_extend imm bits) 1)

unfoldable pub decode_bcr : ℕ → Decoded
decode_bcr operands =
    let mask = field 4 4 operands in
    if mask == 0
    then ([], FlowType.normal)
    else if mask == 15
    then (if field 0 4 operands == 14
        then ([], FlowType.return)
        else ([], FlowType.indirect_branch))
    else ([], FlowType.conditional_branch)

unfoldable pub decode_basr : ℕ → Decoded
decode_basr operands =
    if field 0 4 operands == 0 then ([], FlowType.normal) else ([], FlowType.indirect_call)

unfoldable pub decode_2byte : ℕ → ℕ → Decoded
decode_2byte op operands =
    if op == 7
    then decode_bcr operands
    else if op == 0xd
    then decode_basr operands
    else ([], FlowType.normal)

-- BRC and BRAS, and with more bits BRCL and BRASL: `op4` is the low half of the second byte, and
-- the high half is the mask.
unfoldable pub decode_relative : ℕ → ℕ → ℕ → Decoded
decode_relative op4 mask target =
    if op4 == 4
    then (if mask == 15
        then (target ∷ [], FlowType.unconditional_branch)
        else if mask == 0
        then ([], FlowType.normal)
        else (target ∷ [], FlowType.conditional_branch))
    else if op4 == 5
    then (target ∷ [], FlowType.call)
    else ([], FlowType.normal)

unfoldable pub decode_4byte : ℕ → ℕ → ℕ → ℕ → Decoded
decode_4byte addr op_hi op_lo imm16 =
    if op_hi == 0xa7
    then decode_relative (field 0 4 op_lo) (field 4 4 op_lo) (halfword_target addr 16 imm16)
    else ([], FlowType.normal)

unfoldable pub decode_6byte : ℕ → ℕ → ℕ → ℕ → Decoded
decode_6byte addr op_hi op_lo imm32 =
    if op_hi == 0xc0
    then decode_relative (field 0 4 op_lo) (field 4 4 op_lo) (halfword_target addr 32 imm32)
    else ([], FlowType.normal)

unfoldable pub decode_s390x_instr : ℕ → List ℕ → Decoded
unfolding decode_4byte decode_6byte
decode_s390x_instr addr (a ∷ b ∷ []) = decode_2byte a b
decode_s390x_instr addr (a ∷ b ∷ c ∷ d ∷ []) =
    decode_4byte addr a b (decode_bytes Endian.big (c ∷ d ∷ []))
decode_s390x_instr addr (a ∷ b ∷ c ∷ d ∷ e ∷ f ∷ []) =
    decode_6byte addr a b (decode_bytes Endian.big (c ∷ d ∷ e ∷ f ∷ []))
decode_s390x_instr addr raw = ([], FlowType.normal)

abbrev pub s390x_instr : ℕ → List ℕ → DecodedInstr
s390x_instr addr raw =
    let d = decode_s390x_instr addr raw in
    record {
      addr = addr;
      raw = raw;
      len = length raw;
      targets = d.0;
      pc_rel_target = none;
      is_call = is_call d.1;
      flow = d.1;
    }

-- The loop of the decoder, on fuel: each round takes two bytes at least.
unfoldable pub decode_from : ℕ → ℕ → List ℕ → List DecodedInstr
decode_from zero addr bytes = []
decode_from (suc fuel) addr [] = []
decode_from (suc fuel) addr (first ∷ rest) =
    let ilen = instr_len first in
    elim (leb ilen (length (first ∷ rest))) [
      | false ↦ []
      | true ↦
          s390x_instr addr (take ilen (first ∷ rest))
          ∷ decode_from fuel (wrapping_add addr ilen) (drop ilen (first ∷ rest))
    ]

unfoldable pub decode_text_s390x : List ℕ → ℕ → ℕ → ℕ → List DecodedInstr
decode_text_s390x bytes text_offset text_vaddr text_size =
    let slice = section_bytes bytes text_offset text_size in
    decode_from (length slice) text_vaddr slice

-- `x / 2` on the pattern of an `i64`, which rounds towards 0.
abbrev pub half : ℕ → ℕ
half x = if leb (2 ^ 63) x then (u64_mod - (u64_mod - x) / 2) % u64_mod else x / 2

-- The first two bytes of the instructions that are patched.
abbrev pub is_relative : ℕ → List ℕ → Bool
is_relative op_hi (a ∷ b ∷ rest) = a == op_hi && (field 0 4 b == 4 || field 0 4 b == 5)
is_relative op_hi raw = false

-- The bytes of the immediate, `n` of them, at offset 2 of an instruction of `n + 2` bytes.
unfoldable pub new_bytes : ℕ → ℕ → ℕ → List ℕ
new_bytes n new_addr new_target =
    encode_bytes Endian.big n (half (wrapping_sub new_target new_addr))

abbrev pub write_imm : ℕ → ℕ → ℕ → ℕ → List ℕ → Option (List ℕ)
write_imm n foff new_addr new_target bytes =
    if leb (wrapping_add foff (n + 2)) (length bytes)
    then splice bytes (wrapping_add foff 2) (wrapping_add foff (n + 2))
        (new_bytes n new_addr new_target)
    else some bytes

-- `patch_4byte` and `patch_6byte`, by the length of the instruction.
unfoldable pub patch_imm : ℕ → List ℕ → ℕ → ℕ → List ℕ → Option (List ℕ)
patch_imm foff raw new_addr new_target bytes =
    if length raw == 4 && is_relative 0xa7 raw
    then write_imm 2 foff new_addr new_target bytes
    else if length raw == 6 && is_relative 0xc0 raw
    then write_imm 4 foff new_addr new_target bytes
    else some bytes

unfoldable pub patch_one :
    Intervals → List Section → ℕ → ℕ → DecodedInstr → List ℕ → Option (List ℕ)
patch_one r sections ts te instr bytes = elim instr.targets [
  | [] ↦ some bytes
  | target ∷ _ ↦
      if total_shift instr.addr r ts te == total_shift target r ts te
      then some bytes
      else elim (vaddr_to_offset instr.addr sections) [
        | none ↦ some bytes
        | some foff ↦
            patch_imm foff instr.raw (moved r ts te instr.addr) (moved r ts te target) bytes
      ]
]

unfoldable pub patch_branches :
    Intervals → List Section → ℕ → ℕ → List DecodedInstr → List ℕ → Option (List ℕ)
patch_branches r sections ts te instrs bytes =
    patch_live (patch_one r sections ts te) r instrs bytes
