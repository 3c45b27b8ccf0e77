-- ===== src/Arch.antt =====
-- src/arch/mod.rs: what the decoders and the branch patchers of the instruction sets share, and the
-- facts that depend on the instruction set alone.
pub mod Moved
pub mod Aarch64
pub mod Mips
pub mod LoongArch
pub mod Arm32
pub mod S390x
pub mod RiscV
use trim.Prelude.{
  ℕ, ◌+◌, ◌-◌, ◌*◌, ◌/◌, ◌%◌, ◌^◌, min, Bool, true, false, List, [], ◌∷◌, Option, none, some, leb,
  ltb, ◌==◌, ◌&&◌, if◌then◌else◌, wrapping_add, wrapping_sub, saturating_add, u64_mod, u64_max,
  length, take, drop,
}
use trim.Types.{Arch, Endian, FlowType, DecodedInstr, Section, vaddr_to_offset}
use trim.Types.Pointer.{splice, decode_bytes, encode_bytes}
use trim.Patch.Relocs.{Intervals, in_dead_range, total_shift}

-- `(w >> k) & mask` for a mask of `n` ones.
abbrev pub field : ℕ → ℕ → ℕ → ℕ
field k n w = w / 2 ^ k % 2 ^ n

-- `x << k` and `x >> k` on the pattern of an `i64`; `>>` copies the sign in.
abbrev pub shl : ℕ → ℕ → ℕ
shl x k = x * 2 ^ k % u64_mod

abbrev pub sar : ℕ → ℕ → ℕ
sar x k = if leb (2 ^ 63) x then u64_max - (u64_max - x) / 2 ^ k else x / 2 ^ k

-- `sign_extend(val, bits) as i64`, as a pattern.
abbrev pub sign_extend : ℕ → ℕ → ℕ
sign_extend val bits =
    if ltb (val % 2 ^ bits) (2 ^ (bits - 1))
    then val % 2 ^ bits
    else u64_mod - 2 ^ bits + val % 2 ^ bits

-- `addr & !0xFFF`
abbrev pub page_of : ℕ → ℕ
page_of addr = addr / 4096 * 4096

-- The bytes of a section that the file holds.
unfoldable pub section_bytes : List ℕ → ℕ → ℕ → List ℕ
section_bytes bytes offset size =
    let end = min (saturating_add offset size) (length bytes) in
    if leb offset end then take (end - offset) (drop offset bytes) else []

-- The loop of the decoders of instruction sets with four bytes to an instruction.
unfoldable pub decode_words : (ℕ → List ℕ → DecodedInstr) → ℕ → List ℕ → List DecodedInstr
decode_words instr addr (a ∷ b ∷ c ∷ d ∷ rest) =
    instr addr (a ∷ b ∷ c ∷ d ∷ []) ∷ decode_words instr (wrapping_add addr 4) rest
decode_words instr addr bytes = []

abbrev pub is_call : FlowType → Bool
is_call FlowType.call = true
is_call _ = false

-- Where an address is after compaction.
unfoldable pub moved : Intervals → ℕ → ℕ → ℕ → ℕ
moved r ts te addr = wrapping_sub addr (total_shift addr r ts te)

-- The new word of an instruction that refers to `target`, made from both new addresses; `none` if
-- source and target move alike.
unfoldable pub retarget : Intervals → ℕ → ℕ → ℕ → ℕ → (ℕ → ℕ → ℕ) → Option ℕ
retarget r ts te addr target encode =
    elim (total_shift addr r ts te == total_shift target r ts te) [
      | true ↦ none
      | false ↦ some (encode (moved r ts te addr) (moved r ts te target))
    ]

-- The guards of `patch_one` and the write. `none` where a slice out of range panics.
unfoldable pub patch_word_at :
    Endian → (ℕ → Option ℕ) → List Section → DecodedInstr → List ℕ → Option (List ℕ)
patch_word_at endian new_word sections instr bytes = elim (vaddr_to_offset instr.addr sections) [
  | none ↦ some bytes
  | some foff ↦ elim (leb 4 (length instr.raw) && leb (wrapping_add foff 4) (length bytes)) [
    | false ↦ some bytes
    | true ↦ elim (new_word (decode_bytes endian (take 4 instr.raw))) [
      | none ↦ some bytes
      | some w ↦ splice bytes foff (wrapping_add foff 4) (encode_bytes endian 4 w)
    ]
  ]
]

-- `patch_branches`: the instructions that are not dead, in order.
unfoldable pub patch_live :
    (DecodedInstr → List ℕ → Option (List ℕ))
    → Intervals
    → List DecodedInstr
    → List ℕ
    → Option (List ℕ)
patch_live patch_one r [] bytes = some bytes
patch_live patch_one r (i ∷ instrs) bytes =
    elim (if in_dead_range i.addr r then some bytes else patch_one i bytes) [
      | none ↦ none
      | some patched ↦ patch_live patch_one r instrs patched
    ]

-- The least alignment of an instruction.
unfoldable pub instr_align : Arch → ℕ
instr_align Arch.x86_64 = 1
instr_align Arch.x86_32 = 1
instr_align Arch.risc_v64 = 2
instr_align Arch.risc_v32 = 2
instr_align Arch.s390x = 2
instr_align _ = 4
