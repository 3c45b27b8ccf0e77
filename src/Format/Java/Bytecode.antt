-- ===== src/Format/Java/Bytecode.antt =====
-- src/format/java/bytecode.rs: the walks over a method's bytecode. A walk goes over the bytes of the
-- code; those of an instruction's operands are skipped, which is how `pos += opcode_length(...)`
-- moves on.
pub mod Dead
pub mod Targets
use trim.Prelude.{
  ℕ, zero, suc, ◌+◌, ◌-◌, ◌*◌, ◌/◌, ◌%◌, ◌^◌, min, Bool, true, false, List, [], ◌∷◌, ◌++◌, Option,
  none, some, leb, ltb, ◌==◌, ◌&&◌, ◌||◌, if◌then◌else◌, String, str_eq, nat_eq, length, get_elem?,
  take, drop,
}
use trim.Prelude.Sets.{contains}
use trim.Arch.{sign_extend}
use trim.Analysis.Cfg.{DeadBlock}
use trim.Format.Java.Classfile.{
  CpEntry, methodref, interface_methodref, name_and_type, MethodInfo, ClassFile, be_bytes, cp_utf8,
}

abbrev pub between : ℕ → ℕ → ℕ → Bool
between lo hi op = leb lo op && leb op hi

-- How many bytes pad the operands of a switch at `pos`.
abbrev pub switch_pad : ℕ → ℕ
switch_pad pos = (4 - (pos + 1) % 4) % 4

-- `(high as i64 - low as i64 + 1).max(0)`, from the patterns of two `i32`s.
abbrev pub table_size : ℕ → ℕ → ℕ
table_size low high = (high + 2 ^ 31) % 2 ^ 32 + 1 - (low + 2 ^ 31) % 2 ^ 32

-- `raw_n as usize`, and 0 for a negative one.
abbrev pub lookup_size : ℕ → ℕ
lookup_size raw_n = if ltb raw_n (2 ^ 31) then raw_n else 0

-- The number of entries of the switch that `code` starts with, as far as the code holds them; `none`
-- where not even the header is there.
unfoldable pub table_entries : ℕ → List ℕ → Option ℕ
table_entries pad code =
    if leb (1 + pad + 12) (length code)
    then some (
        min (table_size (be_bytes 4 code (1 + pad + 4)) (be_bytes 4 code (1 + pad + 8)))
          ((length code - (1 + pad + 12)) / 4))
    else none

unfoldable pub lookup_entries : ℕ → List ℕ → Option ℕ
lookup_entries pad code =
    if leb (1 + pad + 8) (length code)
    then some
        (min (lookup_size (be_bytes 4 code (1 + pad + 4))) ((length code - (1 + pad + 8)) / 8))
    else none

abbrev pub is_2byte : ℕ → Bool
is_2byte op =
    (op == 0x10 || op == 0x12)
    || ((between 0x15 0x19 op || between 0x36 0x3a op) || (op == 0xa9 || op == 0xbc))

abbrev pub is_3byte : ℕ → Bool
is_3byte op =
    ((op == 0x11 || between 0x13 0x14 op) || (op == 0x84 || between 0x99 0xa8 op))
    || ((between 0xb2 0xb8 op || (op == 0xbb || op == 0xbd))
        || (between 0xc0 0xc1 op || between 0xc6 0xc7 op))

-- goto_w, jsr_w, invokeinterface and invokedynamic.
abbrev pub is_5byte : ℕ → Bool
is_5byte op = between 0xc8 0xc9 op || between 0xb9 0xba op

-- The length of the instruction `op` at `pos`, which `code` starts with: `pos < end` at each call.
unfoldable pub opcode_length : ℕ → ℕ → List ℕ → ℕ
opcode_length op pos code =
    if is_2byte op
    then 2
    else if is_3byte op
    then 3
    else if is_5byte op
    then 5
    else if op == 0xc5
    then 4
    else if op == 0xc4
    then (elim (get_elem? code 1) [ none ↦ 2 | some op' ↦ if op' == 0x84 then 6 else 4 ])
    else if op == 0xaa
    then (elim (table_entries (switch_pad pos) code) [
      | none ↦ 1
      | some n ↦ 1 + switch_pad pos + 12 + n * 4
    ])
    else if op == 0xab
    then (elim (lookup_entries (switch_pad pos) code) [
      | none ↦ 1
      | some n ↦ 1 + switch_pad pos + 8 + n * 8
    ])
    else 1

-- `cf.methods.iter().position(...)`
unfoldable pub position_of : List CpEntry → String → String → List MethodInfo → ℕ → Option ℕ
position_of pool name desc [] i = none
position_of pool name desc (m ∷ methods) i =
    if str_eq (cp_utf8 pool m.name_index) name && str_eq (cp_utf8 pool m.descriptor_index) desc
    then some i
    else position_of pool name desc methods (i + 1)

-- The method of this class with the name and the descriptor of the entry.
unfoldable pub method_named : ClassFile → ℕ → Option ℕ
method_named cf nat_idx = elim (get_elem? cf.constant_pool nat_idx) [
  | some (name_and_type name_idx desc_idx) ↦
      position_of cf.constant_pool (cp_utf8 cf.constant_pool name_idx)
        (cp_utf8 cf.constant_pool desc_idx) cf.methods 0
  | _ ↦ none
]

unfoldable pub resolve_method_idx : ClassFile → ℕ → Option ℕ
resolve_method_idx cf cp_idx = elim (get_elem? cf.constant_pool cp_idx) [
  | some (methodref _ nat_idx) ↦ method_named cf nat_idx
  | some (interface_methodref _ nat_idx) ↦ method_named cf nat_idx
  | _ ↦ none
]

-- The call that an instruction makes, if to this class.
abbrev pub callee_at : ClassFile → ℕ → List ℕ → List ℕ
callee_at cf op code =
    if between 0xb6 0xb9 op && leb 3 (length code)
    then (elim (resolve_method_idx cf (be_bytes 2 code 1)) [ none ↦ [] | some mi ↦ mi ∷ [] ])
    else []

-- The walk: `skip` bytes belong to the instruction before.
unfoldable pub calls_from : ClassFile → ℕ → ℕ → List ℕ → List ℕ
calls_from cf skip pos [] = []
calls_from cf (suc skip) pos (op ∷ code) = calls_from cf skip (pos + 1) code
calls_from cf zero pos (op ∷ code) =
    callee_at cf op (op ∷ code)
    ++ calls_from cf (opcode_length op pos (op ∷ code) - 1) (pos + 1) code

unfoldable pub scan_bytecode_calls : List ℕ → ClassFile → ℕ → ℕ → List ℕ
scan_bytecode_calls bytes cf code_offset code_length =
    if ltb (length bytes) (code_offset + code_length)
    then []
    else calls_from cf 0 code_offset (take code_length (drop code_offset bytes))

abbrev pub is_short_branch : ℕ → Bool
is_short_branch op = between 0x99 0xa8 op || between 0xc6 0xc7 op

abbrev pub is_wide_branch : ℕ → Bool
is_wide_branch op = between 0xc8 0xc9 op

-- `(rel_pc + off) as u32`, for an offset of `bits` bits.
abbrev pub code_target : ℕ → ℕ → ℕ → ℕ
code_target rel_pc bits off = (rel_pc + sign_extend off bits) % 2 ^ 32

-- The targets in `n` entries of a switch, `step` bytes apart.
unfoldable pub entry_targets : ℕ → ℕ → ℕ → List ℕ → ℕ → List ℕ
entry_targets zero step rel_pc code o = []
entry_targets (suc n) step rel_pc code o =
    code_target rel_pc 32 (be_bytes 4 code o) ∷ entry_targets n step rel_pc code (o + step)

-- The targets of the instruction that `code` starts with, relative to the method's code. The
-- padding of a switch is reckoned from there.
unfoldable pub targets_at : ℕ → ℕ → List ℕ → List ℕ
targets_at op rel_pc code =
    let pad = switch_pad rel_pc in
    if is_short_branch op
    then (if leb 3 (length code) then code_target rel_pc 16 (be_bytes 2 code 1) ∷ [] else [])
    else if is_wide_branch op
    then (if leb 5 (length code) then code_target rel_pc 32 (be_bytes 4 code 1) ∷ [] else [])
    else if op == 0xaa
    then (elim (table_entries pad code) [
      | none ↦ []
      | some n ↦
          code_target rel_pc 32 (be_bytes 4 code (1 + pad))
          ∷ entry_targets n 4 rel_pc code (1 + pad + 12)
    ])
    else if op == 0xab
    then (elim (lookup_entries pad code) [
      | none ↦ []
      | some n ↦
          code_target rel_pc 32 (be_bytes 4 code (1 + pad))
          ∷ entry_targets n 8 rel_pc code (1 + pad + 8 + 4)
    ])
    else []

unfoldable pub targets_from : ℕ → ℕ → ℕ → List ℕ → List ℕ
targets_from code_offset skip pos [] = []
targets_from code_offset (suc skip) pos (op ∷ code) = targets_from code_offset skip (pos + 1) code
targets_from code_offset zero pos (op ∷ code) =
    targets_at op (pos - code_offset) (op ∷ code)
    ++ targets_from code_offset (opcode_length op pos (op ∷ code) - 1) (pos + 1) code

unfoldable pub collect_branch_targets : ℕ → List ℕ → List ℕ
collect_branch_targets code_offset code = targets_from code_offset 0 code_offset code

-- The returns, athrow, goto and goto_w.
abbrev pub is_terminator : ℕ → Bool
is_terminator op = between 0xac 0xb1 op || (op == 0xbf || (op == 0xa7 || op == 0xc8))

-- A dead region of two bytes or more.
abbrev pub region : String → ℕ → ℕ → List DeadBlock
region name ds end =
    if leb 2 (end - ds) then record { func_name = name; addr = ds; size = end - ds } ∷ [] else []

-- A round of `scan_dead_in_method` at the instruction that `code` starts with: the region that ends
-- there, and where the dead code after it starts.
unfoldable pub dead_round :
    List ℕ → ℕ → String → Option ℕ → ℕ → List ℕ → ℕ → List DeadBlock × Option ℕ
dead_round targets code_offset name dead_start pos code op =
    let len = opcode_length op pos code in
    let next = if is_terminator op && ltb len (length code) then some (pos + len) else none in
    elim dead_start [
      | none ↦ ([], next)
      | some ds ↦
          if contains targets ((pos - code_offset) % 2 ^ 32)
          then (region name ds pos, next)
          else ([], some ds)
    ]

-- The walk, where `dead_start` is where the dead code started.
unfoldable pub dead_from : List ℕ → ℕ → String → Option ℕ → ℕ → ℕ → List ℕ → List DeadBlock
dead_from targets code_offset name dead_start skip pos [] = elim dead_start [
  | none ↦ []
  | some ds ↦ region name ds pos
]
dead_from targets code_offset name dead_start (suc skip) pos (op ∷ code) =
    dead_from targets code_offset name dead_start skip (pos + 1) code
dead_from targets code_offset name dead_start zero pos (op ∷ code) =
    let (found, dead') = dead_round targets code_offset name dead_start pos (op ∷ code) op in
    found
    ++ dead_from targets code_offset name dead' (opcode_length op pos (op ∷ code) - 1) (pos + 1)
        code

unfoldable pub scan_dead_in_method : List ℕ → ClassFile → ℕ → ℕ → ℕ → List DeadBlock
scan_dead_in_method bytes cf code_offset code_length name_idx =
    let code = take code_length (drop code_offset bytes) in
    if ltb (length bytes) (code_offset + code_length)
    then []
    else dead_from (collect_branch_targets code_offset code) code_offset
        (cp_utf8 cf.constant_pool name_idx) none 0 code_offset code

unfoldable pub dead_branches_from :
    List ℕ → ClassFile → List ℕ → ℕ → List MethodInfo → List DeadBlock
dead_branches_from bytes cf live idx [] = []
dead_branches_from bytes cf live idx (m ∷ methods) =
    (if contains live idx
      then (elim m.code_offset [
        | none ↦ []
        | some off ↦ scan_dead_in_method bytes cf off m.code_length m.name_index
      ])
      else [])
    ++ dead_branches_from bytes cf live (idx + 1) methods

unfoldable pub find_dead_branches : List ℕ → ClassFile → List ℕ → List DeadBlock
find_dead_branches bytes cf live = dead_branches_from bytes cf live 0 cf.methods
