-- ===== src/Tests/Branches.antt =====
-- src/arch: branches at address 100 over the dead words at 104, and a pair of instructions.
use trim.Prelude.{ℕ, [], ◌∷◌, none, ◌≡◌, refl, arith}
use trim.Types.{FlowType}
use trim.Types.Pointer.{from_le_bytes}
use trim.Patch.Relocs.{Intervals, total_shift, shift_at, shift_from}
use trim.Arch.{moved, field}
use trim.Arch.Moved.{IsText, InText, patched}
use trim.Arch.Aarch64
use trim.Arch.Aarch64.Retarget.{patch_word-decode_a64_word}
use trim.Arch.Mips
use trim.Arch.Mips.Retarget.{patch_word-decode_mips_word}
use trim.Arch.LoongArch
use trim.Arch.LoongArch.Retarget.{patch_branch-decode_la_word}
use trim.Arch.Arm32
use trim.Arch.Arm32.Retarget.{patch_word-decode_arm32_word}
use trim.Arch.S390x.Retarget.{Retargeted, patch_imm-decode_s390x_instr}
use trim.Arch.S390x
use trim.Arch.RiscV
use trim.Arch.RiscV.Retarget.{patch_word-decode_rv_word, patch_half-decode_compressed}
use trim.Arch.RiscV.Auipc
use trim.Arch.RiscV.Auipc.Offset.{new_pair, new_offset-pair_target}

abbrev dead : Intervals
dead = (104, 108) ∷ []

dead-IsText : IsText dead 100 200
dead-IsText = (omega arith, omega arith, omega arith)

source : InText 100 200 100
source = omega arith

target : InText 100 200 108
target = omega arith

abbrev a : ℕ
a = moved dead 100 200 100

abbrev b : ℕ
b = moved dead 100 200 108

-- The target moves by the four dead bytes.
target_run : (a ≡ 100) × (b ≡ 104)
unfolding moved total_shift shift_at shift_from
target_run = (refl, refl)

-- `b .+8`
patch_word-decode_a64_word_example :
    Aarch64.decode_a64_word a
      (patched (Aarch64.patch_word dead 100 200 100 0x1400_0002) 0x1400_0002)
    ≡ Aarch64.branch_to FlowType.unconditional_branch b
unfolding Aarch64.decode_a64_word Aarch64.branch26_target
patch_word-decode_a64_word_example =
    patch_word-decode_a64_word dead 100 200 100 108 0x1400_0002 FlowType.unconditional_branch
      dead-IsText (omega arith) source target refl (omega arith) refl

-- `bne $0, $0, .+8`
patch_word-decode_mips_word_example :
    Mips.decode_mips_word a (patched (Mips.patch_word dead 100 200 100 108 0x1400_0001) 0x1400_0001)
    ≡ (b ∷ [], FlowType.conditional_branch)
unfolding Mips.decode_mips_word Mips.branch_target
patch_word-decode_mips_word_example =
    patch_word-decode_mips_word dead 100 200 100 108 0x1400_0001 FlowType.conditional_branch
      dead-IsText (omega arith) source target refl (omega arith) refl refl

-- `b 8`
patch_branch-decode_la_word_example :
    LoongArch.decode_la_word a
      (patched (LoongArch.patch_branch dead 100 200 100 108 0x5000_0800) 0x5000_0800)
    ≡ LoongArch.branch_to FlowType.unconditional_branch b
unfolding LoongArch.decode_la_word LoongArch.i26_target
patch_branch-decode_la_word_example =
    patch_branch-decode_la_word dead 100 200 100 108 0x5000_0800 FlowType.unconditional_branch
      dead-IsText (omega arith) source target refl (omega arith) refl

-- `b .+8`, which holds 0 for the 8.
patch_word-decode_arm32_word_example :
    Arm32.decode_arm32_word a (patched (Arm32.patch_word dead 100 200 100 0xea00_0000) 0xea00_0000)
    ≡ (b ∷ [], none, FlowType.unconditional_branch)
unfolding Arm32.decode_arm32_word Arm32.decode_arm32_b_bl Arm32.b_target
patch_word-decode_arm32_word_example =
    patch_word-decode_arm32_word dead 100 200 100 108 0xea00_0000 FlowType.unconditional_branch
      dead-IsText (omega arith) source target refl (omega arith) refl

-- `j .+8`
patch_imm-decode_s390x_instr_example :
    Retargeted a b (0xa7 ∷ 0xf4 ∷ 0 ∷ 4 ∷ []) FlowType.unconditional_branch
unfolding S390x.decode_s390x_instr S390x.decode_relative from_le_bytes
patch_imm-decode_s390x_instr_example =
    patch_imm-decode_s390x_instr dead 100 200 100 108 (0xa7 ∷ 0xf4 ∷ 0 ∷ 4 ∷ [])
      FlowType.unconditional_branch dead-IsText (omega arith) source target refl refl

-- `j .+8`
patch_word-decode_rv_word_example :
    RiscV.decode_rv_word a (patched (RiscV.patch_word dead 100 200 100 0x0080_006f) 0x0080_006f)
    ≡ RiscV.branch_to FlowType.unconditional_branch b
unfolding RiscV.decode_rv_word RiscV.jal_target RiscV.jal_imm
patch_word-decode_rv_word_example =
    patch_word-decode_rv_word dead 100 200 100 108 0x0080_006f FlowType.unconditional_branch
      dead-IsText (omega arith) source target refl refl

-- `c.j .+8`
patch_half-decode_compressed_example :
    RiscV.decode_compressed a (patched (RiscV.patch_half dead 100 200 100 0xa021) 0xa021)
    ≡ RiscV.branch_to FlowType.unconditional_branch b
unfolding RiscV.decode_compressed RiscV.c_j_target RiscV.c_j_imm
patch_half-decode_compressed_example =
    patch_half-decode_compressed dead 100 200 100 108 0xa021 FlowType.unconditional_branch
      dead-IsText (omega arith) source target refl refl

-- The pair names 108.
pair_target_run : InText 100 200 (RiscV.Auipc.pair_target 100 0x297 0x0082_8293)
unfolding RiscV.Auipc.pair_target RiscV.Auipc.auipc_offset RiscV.Auipc.low_offset
    RiscV.Auipc.i_type_imm
pair_target_run = omega arith

-- `auipc t0, 0` and `addi t0, t0, 8`
new_offset-pair_target_example :
    (let (aw', pw') =
        new_pair (RiscV.Auipc.new_offset dead 100 200 100 0x297 0x0082_8293) 0x297 0x0082_8293 in
      (RiscV.Auipc.pair_target a aw' pw'
        ≡ moved dead 100 200 (RiscV.Auipc.pair_target 100 0x297 0x0082_8293))
      × (field 0 12 aw' ≡ field 0 12 0x297)
      × (field 0 7 pw' ≡ field 0 7 0x0082_8293))
new_offset-pair_target_example =
    new_offset-pair_target dead 100 200 100 0x297 0x0082_8293 dead-IsText source pair_target_run
