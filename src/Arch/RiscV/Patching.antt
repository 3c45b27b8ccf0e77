-- ===== src/Arch/RiscV/Patching.antt =====
-- src/arch/riscv_patch.rs: the patch of the instructions of a program, written into its file.
use trim.Prelude.{
  ℕ, true, false, List, Option, none, some, leb, ◌==◌, ◌&&◌, wrapping_add, length, take,
}
use trim.Types.{Endian, DecodedInstr, Section, vaddr_to_offset}
use trim.Types.Pointer.{splice, from_le_bytes, encode_bytes}
use trim.Patch.Relocs.{Intervals}
use trim.Arch.{patch_word_at, patch_live}
use trim.Arch.RiscV.{patch_word, patch_half}
use trim.Arch.RiscV.Auipc.{patch_auipc_pairs}

unfoldable pub patch_one_16 :
    Intervals → List Section → ℕ → ℕ → DecodedInstr → List ℕ → Option (List ℕ)
patch_one_16 r sections ts te instr bytes = elim (vaddr_to_offset instr.addr sections) [
  | none ↦ some bytes
  | some foff ↦ elim (leb 2 (length instr.raw) && leb (wrapping_add foff 2) (length bytes)) [
    | false ↦ some bytes
    | true ↦ elim (patch_half r ts te instr.addr (from_le_bytes (take 2 instr.raw))) [
      | none ↦ some bytes
      | some hw ↦ splice bytes foff (wrapping_add foff 2) (encode_bytes Endian.little 2 hw)
    ]
  ]
]

unfoldable pub patch_one :
    Intervals → List Section → ℕ → ℕ → DecodedInstr → List ℕ → Option (List ℕ)
patch_one r sections ts te instr bytes = elim (instr.len == 4) [
  | true ↦ patch_word_at Endian.little (patch_word r ts te instr.addr) sections instr bytes
  | false ↦ elim (instr.len == 2) [
    | true ↦ patch_one_16 r sections ts te instr bytes
    | false ↦ some bytes
  ]
]

unfoldable pub patch_branches :
    Intervals → List Section → ℕ → ℕ → List DecodedInstr → List ℕ → Option (List ℕ)
patch_branches r sections ts te instrs bytes =
    elim (patch_auipc_pairs r sections ts te instrs bytes) [
      | none ↦ none
      | some bytes' ↦ patch_live (patch_one r sections ts te) r instrs bytes'
    ]
