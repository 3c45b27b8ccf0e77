-- ===== src/Format/Java/Compact.antt =====
-- src/format/java/bytecode.rs: dead code is taken out of a method. A slice out of range panics in
-- the source: `none` here, as where the code returns `None`.
pub mod Excise
pub mod Guards
pub mod Refusals
pub mod Offsets
pub mod Walk
pub mod Branches
use trim.Prelude.{
  ℕ, zero, suc, ◌+◌, ◌-◌, ◌*◌, ◌%◌, ◌^◌, min, Bool, true, false, List, [], ◌∷◌, ◌++◌, Option, none,
  some, leb, ltb, ◌==◌, ◌&&◌, ◌||◌, if◌then◌else◌, wrapping_add, wrapping_sub, length, take, drop,
}
use trim.Types.{Endian}
use trim.Types.Pointer.{slice, splice, encode_bytes, decode_bytes}
use trim.Arch.{sign_extend}
use trim.Patch.Relocs.{Interval, Intervals}
use trim.Format.Ranges.{sort_ranges}
use trim.Format.Java.Classfile.{CpEntry, MethodInfo, be_bytes, is_utf8}
use trim.Format.Java.Bytecode.{opcode_length, is_short_branch, is_wide_branch}

-- The walk of `has_switch`.
unfoldable pub switch_from : ℕ → ℕ → List ℕ → Bool
switch_from skip pos [] = false
switch_from (suc skip) pos (op ∷ code) = switch_from skip (pos + 1) code
switch_from zero pos (op ∷ code) =
    let rest = switch_from (opcode_length op pos (op ∷ code) - 1) (pos + 1) code in
    (op == 0xaa || op == 0xab) || rest

-- The code past the end of the file is not walked; the source panics there.
unfoldable pub has_switch : List ℕ → ℕ → ℕ → Bool
has_switch bytes code_off code_len = switch_from 0 code_off (take code_len (drop code_off bytes))

-- The attributes of the Code attribute.
unfoldable pub stack_map_from : ℕ → List ℕ → List CpEntry → ℕ → Bool
stack_map_from zero bytes pool pos = false
stack_map_from (suc n) bytes pool pos =
    let rest = stack_map_from n bytes pool (pos + (6 + be_bytes 4 bytes (pos + 2))) in
    if ltb (length bytes) (pos + 6)
    then false
    else is_utf8 pool (be_bytes 2 bytes pos) "StackMapTable" || rest

unfoldable pub has_stack_map : List ℕ → ℕ → ℕ → MethodInfo → List CpEntry → Bool
has_stack_map bytes code_off code_len m pool = elim m.code_attr_offset [
  | none ↦ false
  | some _ ↦
      let et_off = code_off + code_len in
      let attrs_off = et_off + 2 + be_bytes 2 bytes et_off * 8 in
      if ltb (length bytes) (et_off + 2)
      then false
      else if ltb (length bytes) (attrs_off + 2)
      then false
      else stack_map_from (be_bytes 2 bytes attrs_off) bytes pool (attrs_off + 2)
]

unfoldable pub java_shift : ℕ → Intervals → ℕ
java_shift offset [] = 0
java_shift offset ((s, e) ∷ ranges) =
    wrapping_add (if ltb s offset then wrapping_sub (min e offset) s else 0)
      (java_shift offset ranges)

-- `(pc as i32 + old) as usize`, for an offset of `bits` bits.
abbrev pub branch_target : ℕ → ℕ → ℕ → ℕ
branch_target pc bits old = sign_extend (pc + sign_extend old bits) 32

-- `offset - java_shift(offset, ranges)`
abbrev pub shifted : Intervals → ℕ → ℕ
shifted ranges offset = wrapping_sub offset (java_shift offset ranges)

-- `new_tgt as i32 - new_pc as i32`, in `n` bytes.
abbrev pub offset_bytes : ℕ → ℕ → ℕ → List ℕ
offset_bytes n new_pc new_tgt = encode_bytes Endian.big n (wrapping_sub new_tgt new_pc)

abbrev pub patched_offset : Intervals → ℕ → ℕ → ℕ → List ℕ
patched_offset ranges pc n old =
    offset_bytes n (shifted ranges pc) (shifted ranges (branch_target pc (8 * n) old))

-- The new operands of a branch, with what follows it.
unfoldable pub new_operands : Intervals → ℕ → ℕ → List ℕ → List ℕ
new_operands ranges pc op code =
    if is_short_branch op
    then (if leb 2 (length code) then patched_offset ranges pc 2 (be_bytes 2 code 0) else [])
    else if is_wide_branch op
    then (if leb 4 (length code) then patched_offset ranges pc 4 (be_bytes 4 code 0) else [])
    else []

-- The walk of `patch_code_branches`: `new` replaces the next bytes.
unfoldable pub patch_from : Intervals → ℕ → List ℕ → ℕ → List ℕ → List ℕ
patch_from ranges skip new pc [] = []
patch_from ranges skip (b ∷ new) pc (_ ∷ code) = b ∷ patch_from ranges (skip - 1) new (pc + 1) code
patch_from ranges (suc skip) [] pc (b ∷ code) = b ∷ patch_from ranges skip [] (pc + 1) code
patch_from ranges zero [] pc (op ∷ code) =
    op
    ∷ patch_from ranges (opcode_length op pc (op ∷ code) - 1) (new_operands ranges pc op code)
        (pc + 1) code

unfoldable pub patch_code_branches : List ℕ → Intervals → List ℕ
patch_code_branches code ranges = patch_from ranges 0 [] 0 code

-- The loop of `excise_ranges`.
unfoldable pub excise_from : List ℕ → ℕ → Intervals → Option (List ℕ)
excise_from code pos [] = some (drop pos code)
excise_from code pos ((start, end) ∷ ranges) = elim (excise_from code end ranges) [
  | none ↦ none
  | some rest ↦
      if ltb pos start
      then (elim (slice code pos start) [ none ↦ none | some kept ↦ some (kept ++ rest) ])
      else some rest
]

unfoldable pub excise_ranges : List ℕ → Intervals → Option (List ℕ)
excise_ranges code ranges = excise_from code 0 ranges

-- `result[off..off + 4].copy_from_slice(...)`, where it fits; the value is read only there.
abbrev pub put_u32 : List ℕ → ℕ → Option ℕ → Option (List ℕ)
put_u32 result off value =
    if leb (wrapping_add off 4) (length result)
    then (elim value [
      | none ↦ none
      | some v ↦ splice result off (wrapping_add off 4) (encode_bytes Endian.big 4 v)
    ])
    else some result

-- `old_al - removed as u32`, where `old_al` is read behind the attribute's name.
abbrev pub new_attr_length : List ℕ → ℕ → ℕ → Option ℕ
new_attr_length bytes ca_off removed =
    elim (slice bytes (wrapping_add ca_off 2) (wrapping_add ca_off 6)) [
      | none ↦ none
      | some old_al ↦ some (decode_bytes Endian.big old_al + 2 ^ 32 - removed % 2 ^ 32)
    ]

-- The bytes around the code, with the two lengths written anew.
unfoldable pub rebuild_method_bytes : List ℕ → MethodInfo → ℕ → ℕ → List ℕ → ℕ → Option (List ℕ)
rebuild_method_bytes bytes m ca_off code_off compacted_code removed =
    let raw_end = m.raw_offset + m.raw_size in
    let after_code = code_off + m.code_length in
    elim (slice bytes m.raw_offset code_off) [
      | none ↦ none
      | some before ↦
          elim (if ltb after_code raw_end then slice bytes after_code raw_end else some []) [
            | none ↦ none
            | some after ↦
                elim (put_u32 (before ++ (compacted_code ++ after))
                  (wrapping_sub (wrapping_sub code_off m.raw_offset) 4)
                  (some (length compacted_code))) [
                    | none ↦ none
                    | some result ↦
                        put_u32 result (wrapping_sub (wrapping_add ca_off 2) m.raw_offset)
                          (new_attr_length bytes ca_off removed)
                  ]
          ]
    ]

-- The ranges relative to the code, less those that reach past its end.
unfoldable pub relative_ranges : ℕ → ℕ → Intervals → Intervals
relative_ranges code_off code_len [] = []
relative_ranges code_off code_len ((s, e) ∷ ranges) =
    let rest = relative_ranges code_off code_len ranges in
    if leb (e - code_off) code_len then (s - code_off, e - code_off) ∷ rest else rest

-- What is done when no check refuses the method.
unfoldable pub compact_code : List ℕ → MethodInfo → ℕ → ℕ → Intervals → Option (List ℕ)
compact_code bytes m ca_off code_off [] = none
compact_code bytes m ca_off code_off (r ∷ ranges) =
    elim (slice bytes code_off (code_off + m.code_length)) [
      | none ↦ none
      | some code ↦
          let rel_ranges = sort_ranges (r ∷ ranges) in
          elim (excise_ranges (patch_code_branches code rel_ranges) rel_ranges) [
            | none ↦ none
            | some compacted ↦
                let removed = m.code_length - length compacted in
                if removed == 0
                then none
                else rebuild_method_bytes bytes m ca_off code_off compacted removed
          ]
    ]

-- The checks that refuse a method.
unfoldable pub refuses : List ℕ → MethodInfo → ℕ → Intervals → List CpEntry → Bool
refuses bytes m code_off dead_ranges pool =
    ((m.code_length == 0 || length dead_ranges == 0) || ltb 0 m.exception_table_len)
    || (has_switch bytes code_off m.code_length
        || has_stack_map bytes code_off m.code_length m pool)

unfoldable pub compact_method_code :
    List ℕ → MethodInfo → Intervals → List CpEntry → Option (List ℕ)
compact_method_code bytes m dead_ranges pool = elim m.code_offset [
  | none ↦ none
  | some code_off ↦ elim m.code_attr_offset [
    | none ↦ none
    | some ca_off ↦
        if refuses bytes m code_off dead_ranges pool
        then none
        else compact_code bytes m ca_off code_off
            (relative_ranges code_off m.code_length dead_ranges)
  ]
]
