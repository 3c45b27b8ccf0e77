-- ===== src/Arch/RiscV/Auipc.antt =====
-- src/arch/riscv_patch.rs: the pairs of instructions that name one address together. AUIPC has the
-- upper 20 bits, and one of the four instructions after it the lower 12.
pub mod Offset
use trim.Prelude.{
  ℕ, zero, suc, ◌+◌, ◌-◌, ◌*◌, ◌/◌, ◌%◌, ◌^◌, Bool, true, false, not, List, [], ◌∷◌, Option, none,
  some, leb, ltb, ◌==◌, ◌&&◌, ◌||◌, if◌then◌else◌, wrapping_add, wrapping_sub, u64_mod, u64_max,
  length, take,
}
use trim.Types.{Endian, DecodedInstr, Section, vaddr_to_offset}
use trim.Types.Pointer.{splice, from_le_bytes, encode_bytes}
use trim.Patch.Relocs.{Intervals, in_dead_range}
use trim.Arch.{field, shl, sar, sign_extend, retarget}

unfoldable pub auipc_offset : ℕ → ℕ
auipc_offset w = sign_extend (field 12 20 w * 2 ^ 12) 32

unfoldable pub i_type_imm : ℕ → ℕ
i_type_imm w = sign_extend (field 20 12 w) 12

unfoldable pub s_type_imm : ℕ → ℕ
s_type_imm w = sign_extend (field 25 7 w * 2 ^ 5 + field 7 5 w) 12

unfoldable pub encode_i_type_imm : ℕ → ℕ → ℕ
encode_i_type_imm w imm12 = field 0 20 w + field 0 12 imm12 * 2 ^ 20

-- `w & 0x01FFF07F`, with the two parts of the immediate.
unfoldable pub encode_s_type_imm : ℕ → ℕ → ℕ
encode_s_type_imm w imm =
    field 12 13 w * 2 ^ 12 + field 0 7 w + field 5 7 imm * 2 ^ 25 + field 0 5 imm * 2 ^ 7

-- A store has its immediate in two parts.
abbrev pub is_store : ℕ → Bool
is_store w = field 0 7 w == 0x23

unfoldable pub low_offset : ℕ → ℕ
low_offset pw = if is_store pw then s_type_imm pw else i_type_imm pw

-- The address that a pair names.
unfoldable pub pair_target : ℕ → ℕ → ℕ → ℕ
pair_target addr aw pw = wrapping_add (wrapping_add addr (auipc_offset aw)) (low_offset pw)

-- `((offset + 0x800) >> 12) as i32`, as the pattern of an `i64`.
unfoldable pub hi20 : ℕ → ℕ
hi20 offset = sign_extend (sar (wrapping_add offset 0x800) 12) 32

unfoldable pub lo12 : ℕ → ℕ
lo12 offset = wrapping_sub offset (shl (hi20 offset) 12)

unfoldable pub with_hi20 : ℕ → ℕ → ℕ
with_hi20 aw offset = field 0 12 aw + field 0 20 (hi20 offset) * 2 ^ 12

unfoldable pub with_lo12 : ℕ → ℕ → ℕ
with_lo12 pw offset =
    if is_store pw then encode_s_type_imm pw (lo12 offset) else encode_i_type_imm pw (lo12 offset)

-- The new distance between a pair and its target, if it changes.
unfoldable pub new_offset : Intervals → ℕ → ℕ → ℕ → ℕ → ℕ → Option ℕ
new_offset r ts te addr aw pw =
    retarget r ts te addr (pair_target addr aw pw)
      (λ new_addr new_target. wrapping_sub new_target new_addr)

-- JALR, a load, an operation on an immediate, or a store.
abbrev pub takes_low : ℕ → Bool
takes_low opcode = opcode == 0x67 || opcode == 0x03 || opcode == 0x13 || opcode == 0x23

-- The next `limit` instructions: the first that reads `rd` as its base, unless one overwrites `rd`
-- before.
unfoldable pub find_auipc_pair : ℕ → List DecodedInstr → ℕ → Option DecodedInstr
find_auipc_pair zero rest rd = none
find_auipc_pair (suc limit) [] rd = none
find_auipc_pair (suc limit) (i ∷ rest) rd =
    let w = from_le_bytes (take 4 i.raw) in
    let opcode = field 0 7 w in
    let further = find_auipc_pair limit rest rd in
    if not (i.len == 4) || ltb (length i.raw) 4
    then further
    else if field 15 5 w == rd && takes_low opcode
    then some i
    else if field 7 5 w == rd && not (opcode == 0x23)
    then none
    else further

-- `none` where a slice out of range panics.
unfoldable pub do_patch_auipc_pair :
    Intervals → List Section → ℕ → ℕ → DecodedInstr → DecodedInstr → List ℕ → Option (List ℕ)
do_patch_auipc_pair r sections ts te auipc paired bytes =
    elim (vaddr_to_offset auipc.addr sections) [
      | none ↦ some bytes
      | some a_off ↦ elim (vaddr_to_offset paired.addr sections) [
        | none ↦ some bytes
        | some p_off ↦
            let aw = from_le_bytes (take 4 auipc.raw) in
            let pw = from_le_bytes (take 4 paired.raw) in
            elim (ltb (length bytes) (wrapping_add a_off 4)
              || ltb (length bytes) (wrapping_add p_off 4)) [
                | true ↦ some bytes
                | false ↦ elim (new_offset r ts te auipc.addr aw pw) [
                  | none ↦ some bytes
                  | some offset ↦
                      elim (splice bytes a_off (wrapping_add a_off 4)
                        (encode_bytes Endian.little 4 (with_hi20 aw offset))) [
                          | none ↦ none
                          | some bytes' ↦
                              splice bytes' p_off (wrapping_add p_off 4)
                                (encode_bytes Endian.little 4 (with_lo12 pw offset))
                        ]
                ]
              ]
      ]
    ]

-- The register of a live AUIPC.
unfoldable pub auipc_rd : Intervals → DecodedInstr → Option ℕ
auipc_rd r i =
    let w = from_le_bytes (take 4 i.raw) in
    if in_dead_range i.addr r
    then none
    else if not (i.len == 4) || ltb (length i.raw) 4
    then none
    else if not (field 0 7 w == 0x17) || field 7 5 w == 0
    then none
    else some (field 7 5 w)

-- The instructions in order; each sees the bytes that those before it wrote.
unfoldable pub patch_auipc_pairs :
    Intervals → List Section → ℕ → ℕ → List DecodedInstr → List ℕ → Option (List ℕ)
patch_auipc_pairs r sections ts te [] bytes = some bytes
patch_auipc_pairs r sections ts te (i ∷ rest) bytes =
    let found : Option DecodedInstr = elim (auipc_rd r i) [
      | none ↦ none
      | some rd ↦ find_auipc_pair 4 rest rd
    ] in
    let written : Option (List ℕ) = elim found [
      | none ↦ some bytes
      | some paired ↦ do_patch_auipc_pair r sections ts te i paired bytes
    ] in
    elim written [ none ↦ none | some bytes' ↦ patch_auipc_pairs r sections ts te rest bytes' ]
